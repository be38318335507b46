-- ===== src/Sandbox/Inside.antt =====
-- services/gateway/internal/sandbox/sandbox.go: where the path of an entry that is not skipped leads.
use quantime.Prelude.{
  ℕ, ◌≡◌, refl, ap, ◌∙◌, ◌⊎◌, inl, inr, Bool, true, false, List, [], ◌∷◌, ◌++◌, arith, Bool-cases,
  All, All-append, append-nil,
}
use quantime.Sandbox.Paths.{
  Component, is_dot, is_dotdot, is_empty, Name, split, is_rooted, go_up, add_component,
  reverse_onto, clean_onto, clean, has_dots, any_dots, is_skipped, join, parent,
}

-- A component that `Clean` leaves as it is.
pub record IsPlain (c : Component) : Type 0 where
  pub not_empty : is_empty c ≡ false
  pub not_dot : is_dot c ≡ false
  pub not_dotdot : is_dotdot c ≡ false

-- A component that `Clean` can give.
abbrev IsClean : Component → Type 0
IsClean c = (is_empty c ≡ false) × (is_dot c ≡ false)

All-reverse_onto :
    (ks cs : List Component) → All IsClean ks → All IsClean cs → All IsClean (reverse_onto ks cs)
All-reverse_onto [] cs p q = q
All-reverse_onto (k ∷ ks) cs p q = All-reverse_onto ks (k ∷ cs) p.1 (p.0, q)

go_up-IsClean :
    (rooted : Bool) (ks : List Component) → All IsClean ks → All IsClean (go_up rooted ks)
go_up-IsClean true [] p = tt
go_up-IsClean false [] p = ((refl, refl), tt)
go_up-IsClean rooted (k ∷ ks) p = elim (Bool-cases (is_dotdot k)) [
  | inl up ↦ rw up ((refl, refl), p)
  | inr other ↦ rw other p.1
]

add_component-IsClean :
    (rooted : Bool) (ks : List Component) (c : Component)
    → All IsClean ks
    → All IsClean (add_component rooted ks c)
add_component-IsClean rooted ks c p = elim (Bool-cases (is_dotdot c)) [
  | inl up ↦ rw up (go_up-IsClean rooted ks p)
  | inr other ↦ elim (Bool-cases (is_empty c)) [
    | inl empty ↦ rw (other, empty) p
    | inr full ↦ elim (Bool-cases (is_dot c)) [
      | inl dot ↦ rw (other, full, dot) p
      | inr named ↦ rw (other, full, named) ((full, named), p)
    ]
  ]
]

clean_onto-IsClean :
    (rooted : Bool) (ks cs : List Component)
    → All IsClean ks
    → All IsClean (clean_onto rooted ks cs)
unfolding clean_onto
clean_onto-IsClean rooted ks [] p = All-reverse_onto ks [] p tt
clean_onto-IsClean rooted ks (c ∷ cs) p =
    clean_onto-IsClean rooted (add_component rooted ks c) cs (add_component-IsClean rooted ks c p)

-- What has no two dots is not the component that goes up.
is_dotdot-has_dots : (c : Component) → has_dots c ≡ false → is_dotdot c ≡ false
is_dotdot-has_dots [] h = refl
is_dotdot-has_dots (c ∷ []) h = refl
is_dotdot-has_dots (c ∷ d ∷ []) h = ground arith
is_dotdot-has_dots (c ∷ d ∷ e ∷ cs) h = refl

any_dots-IsPlain : (cs : List Component) → All IsClean cs → any_dots cs ≡ false → All IsPlain cs
any_dots-IsPlain [] p h = tt
any_dots-IsPlain (c ∷ cs) p h = (
  record { not_empty = p.0.0; not_dot = p.0.1; not_dotdot = is_dotdot-has_dots c (ground arith) },
  any_dots-IsPlain cs p.1 (ground arith),
)

add_component-plain :
    (rooted : Bool) (ks : List Component) (c : Component)
    → IsPlain c
    → add_component rooted ks c ≡ c ∷ ks
add_component-plain rooted ks c p = rw (p.not_dotdot, p.not_empty, p.not_dot) refl

clean_onto-plain :
    (rooted : Bool) (ks cs : List Component)
    → All IsPlain cs
    → clean_onto rooted ks cs ≡ reverse_onto ks cs
unfolding clean_onto
clean_onto-plain rooted ks [] p = refl
clean_onto-plain rooted ks (c ∷ cs) p =
    ap (λ k. clean_onto rooted k cs) (add_component-plain rooted ks c p.0)
    ∙ clean_onto-plain rooted (c ∷ ks) cs p.1

-- A path at or below a directory, by components that do not go up.
pub record IsInside (dst path : List Component) : Type 0 where
  pub below : List Component
  pub path_is : path ≡ dst ++ below
  pub plain : All IsPlain below

pub join-IsInside :
    (dst : Name) (name : List ℕ)
    → All IsPlain dst.components
    → is_skipped (clean name) ≡ false
    → IsInside dst.components (join dst (clean name).components)
unfolding join clean
join-IsInside dst name plain kept =
    let cs = clean_onto (is_rooted name) [] (split name) in
    let p =
      any_dots-IsPlain cs (clean_onto-IsClean (is_rooted name) [] (split name) tt) (ground arith) in
    record {
      below = cs;
      path_is =
          clean_onto-plain dst.rooted [] (dst.components ++ cs)
            (All-append IsPlain dst.components cs plain p);
      plain = p;
    }

-- The directory that is made for a file: below the destination, or the one that holds it.
abbrev pub IsParent : List Component → List Component → Type 0
IsParent dst path = IsInside dst path ⊎ (path ≡ parent dst)

parent-append :
    (dst : List Component) (c : Component) (cs : List Component)
    → parent (dst ++ (c ∷ cs)) ≡ dst ++ parent (c ∷ cs)
parent-append [] c cs = refl
parent-append (d ∷ []) c cs = refl
parent-append (d ∷ e ∷ ds) c cs = ap (λ l. d ∷ l) (parent-append (e ∷ ds) c cs)

All-parent : (cs : List Component) → All IsPlain cs → All IsPlain (parent cs)
All-parent [] p = tt
All-parent (c ∷ []) p = tt
All-parent (c ∷ d ∷ cs) p = (p.0, All-parent (d ∷ cs) p.1)

pub parent-IsParent : (dst path : List Component) → IsInside dst path → IsParent dst (parent path)
parent-IsParent dst path i = parent-below dst path i.below i.path_is i.plain
  where
    parent-below :
        (dst path below : List Component)
        → path ≡ dst ++ below
        → All IsPlain below
        → IsParent dst (parent path)
    parent-below dst path [] e p = inr (ap parent (e ∙ append-nil dst))
    parent-below dst path (c ∷ cs) e p = inl record {
      below = parent (c ∷ cs);
      path_is = ap parent e ∙ parent-append dst c cs;
      plain = All-parent (c ∷ cs) p;
    }
