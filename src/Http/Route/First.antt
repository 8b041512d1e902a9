-- ===== src/Http/Route/First.antt =====
-- Which handler the router calls.
use orca_db.Base.{
  ℕ, zero, suc, ◌+◌, ◌≤◌, ◌≡◌, refl, sym, ap, ◌∙◌, true, false, none, some, List, [], ◌∷◌, ◌++◌,
  Bytes, length, length-append, take, arith, lt→leb, leb-true,
}
use mathlib.Core.List.{append_assoc, append-nil}
use orca_db.Http.Request.{Request}
use orca_db.Http.Route.{Route, add_route, is_for, route_req}

module _ {ℓ} {H : Type ℓ} where
  -- The table after a sequence of `add_route`.
  unfoldable pub register : List (Route H) → List (Route H) → List (Route H)
  register routes [] = routes
  register routes (r ∷ rs) = register (add_route routes r) rs

  register-full : (routes rs : List (Route H)) → 128 ≤ length routes → register routes rs ≡ routes
  unfolding register add_route
  register-full routes [] h = refl
  register-full routes (r ∷ rs) h = rw (leb-true 128 (length routes) h) (register-full routes rs h)

  register-take :
      (left : ℕ) (routes rs : List (Route H))
      → length routes + left ≡ 128
      → register routes rs ≡ routes ++ take left rs
  unfolding register add_route
  register-take zero routes rs h =
      register-full routes rs (omega (arith, h)) ∙ sym (append-nil routes)
  register-take (suc left) routes [] h = sym (append-nil routes)
  register-take (suc left) routes (r ∷ rs) h = rw (lt→leb 128 (length routes) (omega (arith, h))) (
      register-take left (routes ++ (r ∷ [])) rs (omega (arith, h, length-append routes (r ∷ [])))
      ∙ append_assoc routes (r ∷ []) (take left rs))

  -- No route of the list is for the request.
  abbrev pub NoneFor : Bytes → Request → List (Route H) → Type 0
  NoneFor buf req [] = Unit
  NoneFor buf req (r ∷ rs) = (is_for buf req r ≡ false) × NoneFor buf req rs

  route_req-skip :
      (buf : Bytes) (req : Request) (before rest : List (Route H))
      → NoneFor buf req before
      → route_req buf (before ++ rest) req ≡ route_req buf rest req
  unfolding route_req
  route_req-skip buf req [] rest h = refl
  route_req-skip buf req (r ∷ before) rest h = rw h.0 (route_req-skip buf req before rest h.1)

  -- Of routes that are added one after the other to an empty table, the first 128 count: a request
  -- goes to the first of them that is for it, and to `handle_404` if none is.
  pub route_req-first :
      (buf : Bytes) (req : Request) (rs before after : List (Route H))
      → take 128 rs ≡ before ++ after
      → NoneFor buf req before
      → (((r : Route H) (later : List (Route H))
            → after ≡ r ∷ later
            → is_for buf req r ≡ true
            → route_req buf (register [] rs) req ≡ some r.handler)
          × (after ≡ [] → route_req buf (register [] rs) req ≡ none))
  unfolding route_req
  route_req-first buf req rs before after split skipped =
      let reached : route_req buf (register [] rs) req ≡ route_req buf after req =
        ap (λ l. route_req buf l req) (register-take 128 [] rs refl ∙ split)
        ∙ route_req-skip buf req before after skipped in
      (
        (λ r later e m. reached ∙ ap (λ l. route_req buf l req) e ∙ head_taken r later m),
        (λ e. reached ∙ ap (λ l. route_req buf l req) e),
      )
    where
      head_taken :
          (r : Route H) (later : List (Route H))
          → is_for buf req r ≡ true
          → route_req buf (r ∷ later) req ≡ some r.handler
      head_taken r later m = rw m refl
