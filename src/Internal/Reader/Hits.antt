-- ===== src/Internal/Reader/Hits.antt =====
-- What the layers answer to src/internal/CacheStackReader.ts.
use layercache.Base.{
  ℕ, ℤ, suc, ◌+◌, length, Bool, true, false, Option, none, some, List, [], ◌∷◌, ◌++◌, ◌≡◌, refl,
  ◌⊎◌, if◌then◌else◌, inl, inr, Bool-cases, arith, sym, ◌∙◌,
}
use mathlib.Core.List.{append-nil, append_assoc}
use layercache.Exec.{Result, ok, err, Exec, pure, continue}
use layercache.JsValue.{Value, is_null, null, undefined}
use layercache.StoredValue.Reads.{resolve_stored_value}
use layercache.Internal.Services.{Layer, Fence}
use layercache.Internal.Reader.{
  Reader, Hit, GetOptions, ReadMode, is_expired_state, passes_over, read_layer_entry, take_hit,
  backfill_above, hits_by_layer, is_negative_stored_value, settle_hit, found_hit, visit, read_loop,
  read_from_layers, misses_by_layer,
}

module _ {W E : Type 0} where
  -- What a method that returns, returns.
  abbrev pub Returns : {A : Type 0} → (A → Type 0) → Result E A × W → Type 0
  Returns P (ok a, w) = P a
  Returns P (err e, w) = Unit

  pub continue-Returns :
      {A B : Type 0} (P : B → Type 0) (x : Result E A × W) (f : A → Exec W E B)
      → ((a : A) (w : W) → Returns P (f a w))
      → Returns P (continue x f)
  continue-Returns P (ok a, w) f h = h a w
  continue-Returns P (err e, w) f h = tt

module _ {K W E : Type 0} where
  -- The hit is an entry that has not expired, and in fresh-only mode it is fresh.
  abbrev pub IsServed : ReadMode → Option (Hit K W E) → Type 0
  IsServed mode none = Unit
  IsServed mode (some hit) =
      (is_expired_state hit.state ≡ false) × (passes_over mode hit.state ≡ false)

  module _ (r : Reader K W E) (key : K) (o : GetOptions K W E) (mode : ReadMode)
      (fence : Fence) where
    take_hit-IsServed :
        (index : ℕ) (above : List (Layer K W E)) (layer : Layer K W E) (stored : Value) (w : W)
        → is_expired_state (resolve_stored_value (r.services.now w) stored (r.services.now w)).state
          ≡ false
        → passes_over mode (resolve_stored_value (r.services.now w) stored (r.services.now w)).state
          ≡ false
        → Returns (IsServed mode) (take_hit r key o fence index above layer stored w)
    take_hit-IsServed index above layer stored w e p =
        continue-Returns (IsServed mode) (settle_hit r key o fence above layer stored w)
          (λ u. pure (some (found_hit r index layer stored w))) (λ a v. (e, p))

    visit-IsServed :
        (index : ℕ) (above : List (Layer K W E)) (layer : Layer K W E) (saw : Bool)
        (loop : Bool → Exec W E (Option (Hit K W E))) (stored : Value) (w : W)
        → ((b : Bool) (v : W) → Returns (IsServed mode) (loop b v))
        → Returns (IsServed mode) (visit r key o mode fence index above layer saw loop stored w)
    visit-IsServed index above layer saw loop stored w h = elim (Bool-cases (is_null stored)) [
      | inl n ↦ rw n (h saw (r.increment (misses_by_layer layer) w))
      | inr n ↦
          let s = (resolve_stored_value (r.services.now w) stored (r.services.now w)).state in
          elim (Bool-cases (is_expired_state s)) [
            | inl e ↦
                rw (n, e) (continue-Returns (IsServed mode) (layer.delete key w) _ (λ u v. h saw v))
            | inr e ↦ elim (Bool-cases (passes_over mode s)) [
              | inl p ↦ rw (n, e, p) (h true w)
              | inr p ↦ rw (n, e, p) (take_hit-IsServed index above layer stored w e p)
            ]
          ]
    ]

    read_loop-IsServed :
        (index : ℕ) (above layers : List (Layer K W E)) (saw : Bool) (w : W)
        → Returns (IsServed mode) (read_loop r key o mode fence index above layers saw w)
    unfolding read_loop
    read_loop-IsServed index above [] true w = tt
    read_loop-IsServed index above [] false w =
        continue-Returns (IsServed mode) (r.remove key w) _ (λ u v. tt)
    read_loop-IsServed index above (layer ∷ layers) saw w =
        continue-Returns (IsServed mode) (read_layer_entry r layer key w) _ (λ stored v.
          visit-IsServed index above layer saw
            (read_loop r key o mode fence (suc index) (above ++ layer ∷ []) layers) stored v
            (λ b u. read_loop-IsServed (suc index) (above ++ layer ∷ []) layers b u))

  -- Whatever the layers and the services do: a read that returns an entry returns one that had not
  -- expired when it was looked at, and in fresh-only mode a fresh one.
  pub read_from_layers-IsServed :
      (r : Reader K W E) (key : K) (o : GetOptions K W E) (mode : ReadMode) (w : W)
      → Returns (IsServed mode) (read_from_layers r key o mode w)
  unfolding read_from_layers
  read_from_layers-IsServed r key o mode w =
      read_loop-IsServed r key o mode _ 0 [] r.services.layers false w

  module _ (r : Reader K W E) (key : K) (o : GetOptions K W E) (mode : ReadMode)
      (fence : Fence) where
    -- The world after misses were counted for the layers.
    abbrev pub counted : List (Layer K W E) → W → W
    counted [] w = w
    counted (l ∷ ls) w = counted ls (r.increment (misses_by_layer l) w)

    -- Each of the layers answers null, when it is its turn, without changing the world.
    abbrev pub AllMiss : List (Layer K W E) → W → Type 0
    AllMiss [] w = Unit
    AllMiss (l ∷ ls) w =
        (read_layer_entry r l key w ≡ (ok null, w)) × AllMiss ls (r.increment (misses_by_layer l) w)

    step_over :
        (index : ℕ) (above : List (Layer K W E)) (l : Layer K W E) (ls : List (Layer K W E)) (w : W)
        → read_layer_entry r l key w ≡ (ok null, w)
        → read_loop r key o mode fence index above (l ∷ ls) false w
          ≡ read_loop r key o mode fence
              (suc index)
              (above ++ l ∷ [])
              ls
              false
              (r.increment (misses_by_layer l) w)
    unfolding read_loop
    step_over index above l ls w h = rw h refl

    loop_first :
        (n index : ℕ) (full above passed : List (Layer K W E)) (layer : Layer K W E)
        (below : List (Layer K W E)) (w v : W) (stored : Value)
        → n ≡ length passed + index
        → full ≡ above ++ passed
        → AllMiss passed w
        → read_layer_entry r layer key (counted passed w) ≡ (ok stored, v)
        → read_loop r key o mode fence index above (passed ++ layer ∷ below) false w
          ≡ visit r key o mode fence n full layer false
              (read_loop r key o mode fence (suc n) (full ++ layer ∷ []) below)
              stored
              v
    loop_first n index full above [] layer below w v stored en ef m h =
        let p : n ≡ index = omega arith in
        let q : full ≡ above = ef ∙ append-nil above in rw (p, q) (unfold read_loop in rw h refl)
    loop_first n index full above (l ∷ ls) layer below w v stored en ef m h =
        step_over index above l (ls ++ layer ∷ below) w m.0
        ∙ loop_first n (suc index) full (above ++ l ∷ []) ls layer below
            (r.increment (misses_by_layer l) w) v stored (omega arith)
            (ef ∙ sym (append_assoc above (l ∷ []) ls)) m.1 h

    go_on :
        List (Layer K W E) → Layer K W E → List (Layer K W E) → Bool → Exec W E (Option (Hit K W E))
    go_on passed layer below =
        read_loop r key o mode fence (suc (length passed)) (passed ++ layer ∷ []) below

    read_loop_visits :
        (passed : List (Layer K W E)) (layer : Layer K W E) (below : List (Layer K W E)) (w v : W)
        (stored : Value)
        → AllMiss passed w
        → read_layer_entry r layer key (counted passed w) ≡ (ok stored, v)
        → read_loop r key o mode fence 0 [] (passed ++ layer ∷ below) false w
          ≡ visit r key o mode fence
              (length passed)
              passed
              layer
              false
              (go_on passed layer below)
              stored
              v
    unfolding go_on
    read_loop_visits passed layer below w v stored m h =
        loop_first (length passed) 0 passed [] passed layer below w v stored (omega arith) refl m h

    -- What an entry that is served shows: where it was found, and the value that its envelope has at the
    -- time, which is undefined for a negative entry.
    abbrev pub IsFound : Hit K W E → List (Layer K W E) → Layer K W E → Value → ℤ → Type 0
    IsFound hit passed layer stored now =
        (hit.layer_index ≡ length passed)
        × (hit.layer ≡ layer)
        × (hit.stored ≡ stored)
        × (hit.state ≡ (resolve_stored_value now stored now).state)
        × (((is_negative_stored_value now stored ≡ true) × (hit.value ≡ undefined))
            ⊎ ((is_negative_stored_value now stored ≡ false)
                × (hit.value ≡ (resolve_stored_value now stored now).value)))

    shown_value :
        (b : Bool) (x : Value)
        → ((b ≡ true) × ((if b then undefined else x) ≡ undefined))
          ⊎ ((b ≡ false) × ((if b then undefined else x) ≡ x))
    shown_value true x = inl (refl, refl)
    shown_value false x = inr (refl, refl)

    -- A read goes through the layers in their order. Where those in front answer null, the next one has an
    -- entry that has not expired and, in fresh-only mode, is fresh, and touching the key and backfilling
    -- the stored entry into exactly the layers in front return: after these the hit of the layer is
    -- counted, the layers below are not read, and the read returns this entry, with its state and value
    -- at that time, and with the number of layers in front as its index.
    pub read_loop-first :
        (passed : List (Layer K W E)) (layer : Layer K W E) (below : List (Layer K W E))
        (w v u₁ u₂ : W) (stored : Value)
        → AllMiss passed w
        → read_layer_entry r layer key (counted passed w) ≡ (ok stored, v)
        → is_null stored ≡ false
        → is_expired_state (resolve_stored_value (r.services.now v) stored (r.services.now v)).state
          ≡ false
        → passes_over mode (resolve_stored_value (r.services.now v) stored (r.services.now v)).state
          ≡ false
        → r.touch key v ≡ (ok tt, u₁)
        → backfill_above r key stored passed o fence u₁ ≡ (ok tt, u₂)
        → (hit : Hit K W E) × (read_loop r key o mode fence 0 [] (passed ++ layer ∷ below) false w
            ≡ (ok (some hit), r.increment (hits_by_layer layer) u₂))
          × IsFound hit passed layer stored (r.services.now v)
    read_loop-first passed layer below w v u₁ u₂ stored m h n e p t b =
        let found = found_hit r (length passed) layer stored v in
        (
          found,
          read_loop_visits passed layer below w v stored m h ∙ rw (n, e, p, t, b) refl,
          (
            refl,
            refl,
            refl,
            refl,
            shown_value (is_negative_stored_value (r.services.now v) stored) _,
          ),
        )
