-- ===== src/Sandbox/Paths.antt =====
-- services/gateway/internal/sandbox/sandbox.go: the check of an entry's path, and the functions of
-- path/filepath that it calls. A path is whether it is rooted, and its components.
use quantime.Prelude.{ℕ, Bool, true, false, ◌&&◌, ◌||◌, List, [], ◌∷◌, ◌++◌, ◌==◌, if◌then◌else◌}

abbrev pub Component : Type 0
Component = List ℕ

abbrev pub dotdot : Component
dotdot = 46 ∷ 46 ∷ []

abbrev pub is_dot : Component → Bool
is_dot [] = false
is_dot (c ∷ []) = c == 46
is_dot (c ∷ d ∷ cs) = false

abbrev pub is_dotdot : Component → Bool
is_dotdot [] = false
is_dotdot (c ∷ []) = false
is_dotdot (c ∷ d ∷ []) = c == 46 && d == 46
is_dotdot (c ∷ d ∷ e ∷ cs) = false

abbrev pub is_empty : Component → Bool
is_empty [] = true
is_empty (c ∷ cs) = false

pub record Name : Type 0 where
  pub rooted : Bool
  pub components : List Component

-- The components between the slashes.
abbrev pub push_byte : ℕ → List Component → List Component
push_byte c [] = (c ∷ []) ∷ []
push_byte c (p ∷ ps) = (c ∷ p) ∷ ps

unfoldable pub split : List ℕ → List Component
split [] = [] ∷ []
split (c ∷ cs) = let rest = split cs in if c == 47 then [] ∷ rest else push_byte c rest

abbrev pub is_rooted : List ℕ → Bool
is_rooted [] = false
is_rooted (c ∷ cs) = c == 47

-- `filepath.Clean`: the components that are kept, the last one first, and the next one.
abbrev pub go_up : Bool → List Component → List Component
go_up rooted [] = if rooted then [] else dotdot ∷ []
go_up rooted (d ∷ ds) = if is_dotdot d then dotdot ∷ d ∷ ds else ds

abbrev pub add_component : Bool → List Component → Component → List Component
add_component rooted kept c =
    if is_dotdot c then go_up rooted kept else if is_empty c || is_dot c then kept else c ∷ kept

abbrev pub reverse_onto : List Component → List Component → List Component
reverse_onto [] cs = cs
reverse_onto (k ∷ ks) cs = reverse_onto ks (k ∷ cs)

unfoldable pub clean_onto : Bool → List Component → List Component → List Component
clean_onto rooted kept [] = reverse_onto kept []
clean_onto rooted kept (c ∷ cs) = clean_onto rooted (add_component rooted kept c) cs

unfoldable pub clean : List ℕ → Name
unfolding split clean_onto
clean name = record {
  rooted = is_rooted name;
  components = clean_onto (is_rooted name) [] (split name);
}

-- `strings.Contains(clean, "..")`, which no slash can break.
abbrev pub has_dots : Component → Bool
has_dots [] = false
has_dots (c ∷ []) = false
has_dots (c ∷ d ∷ cs) = (c == 46 && d == 46) || has_dots (d ∷ cs)

abbrev pub any_dots : List Component → Bool
any_dots [] = false
any_dots (c ∷ cs) = has_dots c || any_dots cs

abbrev pub is_skipped : Name → Bool
is_skipped n = any_dots n.components || n.rooted

-- `filepath.Join(dst, clean)`
unfoldable pub join : Name → List Component → List Component
unfolding clean_onto
join dst cs = clean_onto dst.rooted [] (dst.components ++ cs)

-- `filepath.Dir` of a clean path.
abbrev pub parent : List Component → List Component
parent [] = []
parent (c ∷ []) = []
parent (c ∷ d ∷ cs) = c ∷ parent (d ∷ cs)
