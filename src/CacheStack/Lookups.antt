-- ===== src/CacheStack/Lookups.antt =====
-- `has` and `ttl` of src/CacheStack.ts, which ask the layers in their order. `should_skip` may change the
-- world, since a degradation that is over is forgotten.
use layercache.Base.{
  Bool, true, false, not, Option, none, some, ℤ, if◌then◌else◌, List, [], ◌∷◌, ◌≡◌, refl, arith,
  Bool-cases, inl, inr,
}
use layercache.Exec.{Result, ok, err, Exec, continue, ◌>>=◌, ◌>>◌, pure, catch, handle}
use layercache.JsValue.{is_null}
use layercache.Internal.Services.{Layer, Operation}
use layercache.CacheStack.{CacheStack}

-- It returns, and does not throw.
abbrev pub Returns : {W E A : Type 0} → Result E A × W → Type 0
Returns {A = A} x = (a : A) × (x.0 ≡ ok a)

handle-Returns :
    {W E A : Type 0} (x : Result E A × W) (f : E → Exec W E A)
    → ((e : E) (w : W) → Returns (f e w))
    → Returns (handle x f)
handle-Returns (ok a, w) f h = (a, refl)
handle-Returns (err e, w) f h = h e w

continue-Returns :
    {W E A B : Type 0} (x : Result E A × W) (f : A → Exec W E B)
    → Returns x
    → ((a : A) (w : W) → Returns (f a w))
    → Returns (continue x f)
continue-Returns (ok a, w) f r h = h a w
continue-Returns (err e, w) f r h = absurd (ground (arith, r.1))

module _ {K W E : Type 0} (should_skip : Layer K W E → W → Bool × W)
    (report : Layer K W E → Operation → E → Exec W E (Unit {0})) where
  -- What a layer says of a key: by `has`, or by `get` where it has no `has`.
  abbrev pub says : Layer K W E → K → Exec W E Bool
  says layer key = elim layer.has [
    | some has ↦ has key
    | none ↦ layer.get key >>= λ value. pure (not (is_null value))
  ]

  abbrev pub asked : Layer K W E → K → Exec W E Bool
  asked layer key = catch (says layer key) (λ e. report layer Operation.presence e >> pure false)

  abbrev pub or_search : Bool → Exec W E Bool → Exec W E Bool
  or_search true search = pure true
  or_search false search = search

  unfoldable pub has_from : List (Layer K W E) → K → Exec W E Bool
  has_from [] key w = (ok false, w)
  has_from (layer ∷ layers) key w =
      let (skip, w') = should_skip layer w in
      if skip
      then has_from layers key w'
      else (asked layer key >>= λ exists. or_search exists (has_from layers key)) w'

  -- A layer that fails is passed over without a report.
  abbrev pub lifetime_by : Option (K → Exec W E (Option ℤ)) → K → Exec W E (Option ℤ)
  lifetime_by none key = pure none
  lifetime_by (some read) key = catch (read key) (λ e. pure none)

  abbrev pub or_later : Option ℤ → Exec W E (Option ℤ) → Exec W E (Option ℤ)
  or_later none search = search
  or_later (some ms) search = pure (some ms)

  unfoldable pub ttl_from : List (Layer K W E) → K → Exec W E (Option ℤ)
  ttl_from [] key w = (ok none, w)
  ttl_from (layer ∷ layers) key w =
      let (skip, w') = should_skip layer w in
      if skip
      then ttl_from layers key w'
      else (lifetime_by layer.ttl key >>= λ remaining. or_later remaining (ttl_from layers key)) w'

  module _ {R T : Type 0} (c : CacheStack R T K W E) where
    unfoldable pub has : R → Exec W E Bool
    has raw = c.qualify_key raw >>= λ key. c.await_startup >> has_from c.writer.services.layers key

    unfoldable pub ttl : R → Exec W E (Option ℤ)
    ttl raw = c.qualify_key raw >>= λ key. c.await_startup >> ttl_from c.writer.services.layers key

  module _
      (quiet : (layer : Layer K W E) (e : E) (w : W)
        → (report layer Operation.presence e w).0 ≡ ok tt) where
    or_search-Returns :
        (exists : Bool) (search : Exec W E Bool) (w : W)
        → ((v : W) → Returns (search v))
        → Returns (or_search exists search w)
    or_search-Returns true search w h = (true, refl)
    or_search-Returns false search w h = h w

    or_later-Returns :
        (left : Option ℤ) (search : Exec W E (Option ℤ)) (w : W)
        → ((v : W) → Returns (search v))
        → Returns (or_later left search w)
    or_later-Returns none search w h = h w
    or_later-Returns (some ms) search w h = (some ms, refl)

    has_from-Returns :
        (layers : List (Layer K W E)) (key : K) (w : W) → Returns (has_from layers key w)
    unfolding has_from
    has_from-Returns [] key w = (false, refl)
    has_from-Returns (layer ∷ layers) key w =
        let w' = (should_skip layer w).1 in
        elim (Bool-cases (should_skip layer w).0) [
          | inl e ↦ rw e (has_from-Returns layers key w')
          | inr e ↦ rw e (
              continue-Returns (asked layer key w') _
                (handle-Returns (says layer key w') _ (λ z v.
                  continue-Returns (report layer Operation.presence z v) _ (tt, quiet layer z v)
                    (λ u x. (false, refl))))
                (λ exists v. or_search-Returns exists _ v (has_from-Returns layers key)))
        ]

    lifetime_by-Returns :
        (read : Option (K → Exec W E (Option ℤ))) (key : K) (w : W)
        → Returns (lifetime_by read key w)
    lifetime_by-Returns none key w = (none, refl)
    lifetime_by-Returns (some read) key w = handle-Returns (read key w) _ (λ z v. (none, refl))

    ttl_from-Returns :
        (layers : List (Layer K W E)) (key : K) (w : W) → Returns (ttl_from layers key w)
    unfolding ttl_from
    ttl_from-Returns [] key w = (none, refl)
    ttl_from-Returns (layer ∷ layers) key w =
        let w' = (should_skip layer w).1 in
        elim (Bool-cases (should_skip layer w).0) [
          | inl e ↦ rw e (ttl_from-Returns layers key w')
          | inr e ↦ rw e (
              continue-Returns (lifetime_by layer.ttl key w') _
                (lifetime_by-Returns layer.ttl key w')
                (λ left v. or_later-Returns left _ v (ttl_from-Returns layers key)))
        ]

    -- Whatever the layers do, throwing included: the search for a key and that for its lifetime return,
    -- where reports do not throw.
    pub lookups-Returns :
        (layers : List (Layer K W E)) (key : K) (w : W)
        → Returns (has_from layers key w) × Returns (ttl_from layers key w)
    lookups-Returns layers key w = (has_from-Returns layers key w, ttl_from-Returns layers key w)
