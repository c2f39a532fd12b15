-- ===== src/Blobs/Client/Tests.antt =====
-- Blobs that are put once and twice.
use chimpbase.Prelude.{ℕ, ◌≡◌, refl, none, some, [], ◌∷◌}
use chimpbase.Prelude.Result.{ok}
use chimpbase.Blobs.Client.{PutOptions, client_put, client_get, put_precondition}
use chimpbase.Prelude.Maps.{includes}
use chimpbase.Blobs.Tests.{digest, show, empty_state}
use chimpbase.Blobs.Client.Puts.{put_metadata, IsGuarded}
use chimpbase.Blobs.Client.Puts

abbrev plain : PutOptions ℕ
plain = record { if_match = none; if_none_match = none; content_type = none; metadata = some 3 }

abbrev create_once : PutOptions ℕ
create_once = record plain { if_none_match = some "*" }

put-get_example :
    client_get 0 digest show
      ("pics" ∷ [])
      "pics"
      "cat"
      none
      none
      (client_put 0 digest show ("pics" ∷ []) "pics" "cat" (1 ∷ 7 ∷ []) plain empty_state).1
    ≡ (
      ok (
          some (
            put_metadata 0 digest show ("pics" ∷ []) "pics" "cat" (1 ∷ 7 ∷ []) plain empty_state,
            1 ∷ 7 ∷ [],
          )),
      (client_put 0 digest show ("pics" ∷ []) "pics" "cat" (1 ∷ 7 ∷ []) plain empty_state).1,
    )
unfolding put_precondition includes
put-get_example =
    Puts.put-get 0 digest show ("pics" ∷ []) "pics" "cat" (1 ∷ 7 ∷ []) plain empty_state refl refl

put-IsGuarded_example :
    IsGuarded 0 digest show
      ("pics" ∷ [])
      "pics"
      "cat"
      (7 ∷ [])
      create_once
      "a0"
      (client_put 0 digest show ("pics" ∷ []) "pics" "cat" (1 ∷ []) plain empty_state).1
unfolding put_precondition includes
put-IsGuarded_example =
    Puts.put-IsGuarded 0 digest show ("pics" ∷ []) "pics" "cat" (1 ∷ []) (7 ∷ []) plain create_once
      empty_state refl refl
