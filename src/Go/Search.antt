-- ===== src/Go/Search.antt =====
-- `sort.Search(n, f)`: binary search for the first index at which `f` holds. Each round at least
-- halves `j - i`, so `n` rounds of fuel are enough; `Search.IsFirst` has the law.
use quantime.Prelude.{
  ℕ, zero, suc, ◌+◌, ◌-◌, ◌/◌, ◌≤◌, ◌<◌, ◌≡◌, Bool, true, false, sym, ◌∙◌, inl, inr, arith, ltb,
  Bool-cases, if◌then◌else◌,
}
use mathlib.Core.Bool.{false≢true}

search_from : ℕ → (ℕ → Bool) → ℕ → ℕ → ℕ
search_from zero f i j = i
search_from (suc fuel) f i j =
    let upper = search_from fuel f ((i + j) / 2 + 1) j in
    let lower = search_from fuel f i ((i + j) / 2) in
    if ltb i j then if f ((i + j) / 2) then lower else upper else i

unfoldable pub search : ℕ → (ℕ → Bool) → ℕ
unfolding search_from
search n f = search_from n f 0 n

-- Once true, `f` stays true below `n`.
abbrev pub IsMonotone : ℕ → (ℕ → Bool) → Type 0
IsMonotone n f = (a b : ℕ) → a ≤ b → b < n → f a ≡ true → f b ≡ true

pub record IsFirst (n : ℕ) (f : ℕ → Bool) (r : ℕ) : Type 0 where
  pub within : r ≤ n
  pub before : (k : ℕ) → k < r → f k ≡ false
  pub at : r < n → f r ≡ true

below_miss :
    (f : ℕ → Bool) (n i j : ℕ)
    → IsMonotone n f
    → (i + j) / 2 < n
    → f ((i + j) / 2) ≡ false
    → (k : ℕ) → k < (i + j) / 2 + 1
    → f k ≡ false
below_miss f n i j mono inside miss k h = elim (Bool-cases (f k)) [
  | inl e ↦ absurd (false≢true (sym miss ∙ mono k ((i + j) / 2) (omega arith) inside e))
  | inr e ↦ e
]

search_from-IsFirst :
    (fuel n : ℕ) (f : ℕ → Bool) (i j : ℕ)
    → IsMonotone n f
    → i ≤ j
    → j ≤ n
    → j - i ≤ fuel
    → ((k : ℕ) → k < i → f k ≡ false)
    → (j < n → f j ≡ true)
    → IsFirst n f (search_from fuel f i j)
unfolding search_from
search_from-IsFirst zero n f i j mono ij jn enough low high = record {
  within = omega arith;
  before = low;
  at = λ h. ground (arith, high);
}
search_from-IsFirst (suc fuel) n f i j mono ij jn enough low high = elim (Bool-cases (ltb i j)) [
  | inl more ↦ elim (Bool-cases (f ((i + j) / 2))) [
    | inl hit ↦
        rw (more, hit)
          (search_from-IsFirst fuel n f i ((i + j) / 2) mono (omega arith) (ground arith)
            (ground arith) low (λ h. hit))
    | inr miss ↦
        rw (more, miss)
          (search_from-IsFirst fuel n f ((i + j) / 2 + 1) j mono (ground arith) jn (ground arith)
            (below_miss f n i j mono (ground arith) miss) high)
  ]
  | inr done ↦
      rw done (record { within = omega arith; before = low; at = λ h. ground (arith, high) })
]

pub search-IsFirst : (n : ℕ) (f : ℕ → Bool) → IsMonotone n f → IsFirst n f (search n f)
unfolding search
search-IsFirst n f mono =
    search_from-IsFirst n n f 0 n mono (omega arith) (omega arith) (omega arith)
      (λ k h. absurd (omega arith)) (λ h. absurd (omega arith))
