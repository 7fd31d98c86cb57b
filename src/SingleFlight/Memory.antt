-- ===== src/SingleFlight/Memory.antt =====
-- The string commands in memory, with a clock that stands still and a connection that does not fail. A key that expires is deleted from outside.
use layercache.Base.{Bool, true, false, Option, none, some, refl}
use layercache.JsMap.{JsMap}
use layercache.JsMap
use layercache.JsMap.Laws.{get-set, get-delete}
use layercache.Redis.{Text}
use layercache.SingleFlight.{Strings, answered, IsLawful}

module _ (dec : Discrete Text) where
  abbrev pub set_if_absent : Option Text → Text → Text → JsMap Text Text → Bool × JsMap Text Text
  set_if_absent none k t m = (true, JsMap.set dec k t m)
  set_if_absent (some u) k t m = (false, m)

  abbrev pub memory : Strings (JsMap Text Text)
  memory = record {
    get = λ k m. JsMap.get dec k m;
    del = λ k m. JsMap.delete dec k m;
    pexpire = λ k ms m. m;
    set_px_nx = λ k t ms m. set_if_absent (JsMap.get dec k m) k t m;
    now = λ m. 0;
    delivery = λ m. answered;
  }

  pub memory-IsLawful : IsLawful dec memory
  memory-IsLawful = record {
    set-free = λ k t ms m e. rw e (refl, λ j. get-set dec j k t m);
    set-taken = λ k t u ms m e. rw e (refl, λ j. refl);
    get-del = λ k m j. get-delete dec j k m;
    get-pexpire = λ k ms m j pos. refl;
  }
