-- ===== src/Fleet/Rng.antt =====
-- services/botfleet/internal/bot/rng.go. A uint64 is a number below 2 ^ 64: sums, products and left
-- shifts wrap.
use quantime.Prelude.{ℕ, ◌+◌, ◌-◌, ◌*◌, ◌/◌, ◌%◌, ◌^◌, ◌==◌, if◌then◌else◌}
use Prim.Native.Nat.{bit_or, bit_xor}

abbrev pub word : ℕ → ℕ
word n = n % 2 ^ 64

abbrev pub shift_left : ℕ → ℕ → ℕ
shift_left x k = word (x * 2 ^ k)

abbrev pub shift_right : ℕ → ℕ → ℕ
shift_right x k = x / 2 ^ k

abbrev pub rotl : ℕ → ℕ → ℕ
rotl x k = bit_or (shift_left x k) (shift_right x (64 - k))

pub record Xoshiro : Type 0 where
  pub s0 : ℕ
  pub s1 : ℕ
  pub s2 : ℕ
  pub s3 : ℕ

-- The body of the seeding loop, after `s += …`.
unfoldable pub splitmix : ℕ → ℕ
splitmix s =
    let z1 = word (bit_xor s (shift_right s 30) * 0xBF58476D1CE4E5B9) in
    let z2 = word (bit_xor z1 (shift_right z1 27) * 0x94D049BB133111EB) in
    let z3 = bit_xor z2 (shift_right z2 31) in if z3 == 0 then 1 else z3

abbrev pub advance : ℕ → ℕ
advance s = word (s + 0x9E3779B97F4A7C15)

unfoldable pub new_xoshiro : ℕ → Xoshiro
unfolding splitmix
new_xoshiro seed =
    let a = advance seed in
    let b = advance a in
    let c = advance b in
    let d = advance c in
    record { s0 = splitmix a; s1 = splitmix b; s2 = splitmix c; s3 = splitmix d }

-- The state afterwards and the result.
unfoldable pub next : Xoshiro → Xoshiro × ℕ
next x =
    let result = word (rotl (word (x.s1 * 5)) 7 * 9) in
    let t = shift_left x.s1 17 in
    let s2 = bit_xor x.s2 x.s0 in
    let s3 = bit_xor x.s3 x.s1 in
    let s1 = bit_xor x.s1 s2 in
    let s0 = bit_xor x.s0 s3 in
    (record { s0 = s0; s1 = s1; s2 = bit_xor s2 t; s3 = rotl s3 45 }, result)
