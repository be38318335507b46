-- ===== src/Gateway/Dispatch.antt =====
-- services/gateway/internal/api/router.go, NewRouter: no request matches two patterns.
use mathlib.Core.Path.{subst}
use mathlib.Core.Option.{some-injective}
use Prim.Native.String.{String}
use text.Mathlib.Text.{◌==◌}
use text.Mathlib.TextEquality.{eq_iff}
use text.Mathlib.TextPositions.{eq_refl}
use quantime.Prelude.{
  ℕ, zero, suc, ◌≡◌, refl, ap, sym, ◌∙◌, inl, inr, Bool, true, false, not, ◌&&◌, some, List, [],
  ◌∷◌, get_elem?, arith, Bool-cases,
}
use quantime.Gateway.Routes.{
  Segment, literal, wildcard, RouteMethod, get, post, Route, routes, method_matches,
  segment_matches, path_matches, path_value, route_matches, handler, has_path, first_match,
  dispatched, dispatch,
}

abbrev same_method : RouteMethod → RouteMethod → Bool
same_method get get = true
same_method post post = true
same_method get post = false
same_method post get = false

abbrev segments_meet : Segment → Segment → Bool
segments_meet (literal a) (literal b) = a == b
segments_meet (literal a) wildcard = true
segments_meet wildcard s = true

-- Some path may match both.
unfoldable paths_meet : List Segment → List Segment → Bool
paths_meet [] [] = true
paths_meet [] (q ∷ qs) = false
paths_meet (p ∷ ps) [] = false
paths_meet (p ∷ ps) (q ∷ qs) = segments_meet p q && paths_meet ps qs

abbrev meet : Route → Route → Bool
meet r s = same_method r.method s.method && paths_meet r.pattern s.pattern

abbrev apart_from : Route → List Route → Bool
apart_from r [] = true
apart_from r (s ∷ rs) = not (meet r s) && apart_from r rs

unfoldable all_apart : List Route → Bool
unfolding paths_meet
all_apart [] = true
all_apart (r ∷ rs) = apart_from r rs && all_apart rs

equal_texts : (a b : String) → (a == b) ≡ true → a ≡ b
equal_texts a b e = (eq_iff a b).0 e

segment_meets :
    (p q : Segment) (x : String)
    → segment_matches p x ≡ true
    → segment_matches q x ≡ true
    → segments_meet p q ≡ true
segment_meets (literal a) (literal b) x ma mb =
    let e : a ≡ b = equal_texts a x ma ∙ sym (equal_texts b x mb) in
    subst (λ y. (a == y) ≡ true) e (eq_refl a)
segment_meets (literal a) wildcard x ma mb = refl
segment_meets wildcard s x ma mb = refl

and_parts : (a b : Bool) → (a && b) ≡ true → (a ≡ true) × (b ≡ true)
and_parts true b h = (refl, h)
and_parts false b h = absurd (ground (arith, h))

paths_meet-path_matches :
    (ps qs : List Segment) (xs : List String)
    → path_matches ps xs ≡ true
    → path_matches qs xs ≡ true
    → paths_meet ps qs ≡ true
unfolding path_matches paths_meet
paths_meet-path_matches [] [] xs mp mq = refl
paths_meet-path_matches [] (q ∷ qs) [] mp mq = absurd (ground (arith, mq))
paths_meet-path_matches [] (q ∷ qs) (x ∷ xs) mp mq = absurd (ground (arith, mp))
paths_meet-path_matches (p ∷ ps) [] [] mp mq = absurd (ground (arith, mp))
paths_meet-path_matches (p ∷ ps) [] (x ∷ xs) mp mq = absurd (ground (arith, mq))
paths_meet-path_matches (p ∷ ps) (q ∷ qs) [] mp mq = absurd (ground (arith, mp))
paths_meet-path_matches (p ∷ ps) (q ∷ qs) (x ∷ xs) mp mq =
    let (p0, p1) = and_parts (segment_matches p x) (path_matches ps xs) mp in
    let (q0, q1) = and_parts (segment_matches q x) (path_matches qs xs) mq in
    rw (segment_meets p q x p0 q0, paths_meet-path_matches ps qs xs p1 q1) refl

get_or_post :
    (m : String) → method_matches get m ≡ true → method_matches post m ≡ true → false ≡ true
get_or_post m g p =
    let e : m ≡ "POST" = equal_texts m "POST" p in subst (λ t. method_matches get t ≡ true) e g

same_method-method_matches :
    (a b : RouteMethod) (m : String)
    → method_matches a m ≡ true
    → method_matches b m ≡ true
    → same_method a b ≡ true
same_method-method_matches get get m x y = refl
same_method-method_matches post post m x y = refl
same_method-method_matches get post m x y = get_or_post m x y
same_method-method_matches post get m x y = get_or_post m y x

meet-route_matches :
    (r s : Route) (m : String) (path : List String)
    → route_matches m path r ≡ true
    → route_matches m path s ≡ true
    → meet r s ≡ true
meet-route_matches r s m path x y =
    let (r0, r1) = and_parts (method_matches r.method m) (path_matches r.pattern path) x in
    let (s0, s1) = and_parts (method_matches s.method m) (path_matches s.pattern path) y in
    let methods = same_method-method_matches r.method s.method m r0 s0 in
    let paths = paths_meet-path_matches r.pattern s.pattern path r1 s1 in rw (methods, paths) refl

matches_first :
    (q s : Route) (m : String) (path : List String)
    → some q ≡ some s
    → route_matches m path s ≡ true
    → route_matches m path q ≡ true
matches_first q s m path h y =
    subst (λ t. route_matches m path t ≡ true) (sym (some-injective q s h)) y

-- A route that is apart from all the others of a list does not match what one of them matches.
apart_no_match :
    (r : Route) (rs : List Route) (i : ℕ) (s : Route) (m : String) (path : List String)
    → apart_from r rs ≡ true
    → get_elem? rs i ≡ some s
    → route_matches m path s ≡ true
    → route_matches m path r ≡ false
apart_no_match r [] i s m path a h y = absurd (ground (arith, h))
apart_no_match r (q ∷ rs) (suc i) s m path a h y =
    apart_no_match r rs i s m path (and_parts (not (meet r q)) (apart_from r rs) a).1 h y
apart_no_match r (q ∷ rs) zero s m path a h y = elim (Bool-cases (route_matches m path r)) [
  | inr e ↦ e
  | inl e ↦
      let met = meet-route_matches r q m path e (matches_first q s m path h y) in
      absurd (ground (arith, met, (and_parts (not (meet r q)) (apart_from r rs) a).0))
]

-- In a table whose routes are apart, the route that matches is the first that matches.
first_match-all_apart :
    (rs : List Route) (i : ℕ) (s : Route) (m : String) (path : List String)
    → all_apart rs ≡ true
    → get_elem? rs i ≡ some s
    → route_matches m path s ≡ true
    → first_match rs m path ≡ some s
unfolding all_apart first_match
first_match-all_apart [] i s m path a h y = absurd (ground (arith, h))
first_match-all_apart (r ∷ rs) zero s m path a h y = rw (matches_first r s m path h y) h
first_match-all_apart (r ∷ rs) (suc i) s m path a h y =
    let (apart, others) = and_parts (apart_from r rs) (all_apart rs) a in
    rw (apart_no_match r rs i s m path apart h y) (first_match-all_apart rs i s m path others h y)

routes_apart : all_apart routes ≡ true
unfolding all_apart routes paths_meet
routes_apart = refl

-- Whatever route of the table a request matches, wherever the route stands, its handler is the one that
-- gets the request, with the segment at its {id}: no route hides another.
pub dispatch-route_matches :
    (i : ℕ) (s : Route) (m : String) (path : List String)
    → get_elem? routes i ≡ some s
    → route_matches m path s ≡ true
    → dispatch routes m path ≡ handler s.target (path_value s.pattern path)
unfolding dispatch
dispatch-route_matches i s m path h y =
    ap (dispatched (has_path routes path) path)
      (first_match-all_apart routes i s m path routes_apart h y)
