-- ===== src/Screen/Samples.antt =====
-- A screen of an X server, and the theorems at it.
use vizstack.Prelude.{◌≡◌, refl, false, some, List, [], ◌∷◌, arith}
use vizstack.Prelude.Int.{pos, negsuc}
use vizstack.Prelude.Decimal.{decimal}
use vizstack.Errors.{ok}
use vizstack.Resource.Samples.{any_gpu}
use vizstack.Screen.{Screen, FbProperty, new_screen, set_fb_property, get_resolution, get_display}
use vizstack.Screen.Valid.{
  IsValid, ScreenCall, sets_gpu, sets_gpus, sets_property, sets_number, call_all, call_all-IsValid,
}
use vizstack.Screen.Rotation.{get_resolution_lem}

empty : Screen
unfolding new_screen
empty = new_screen (some 1) (some (some 0))

-- Some calls, of which the third to the fifth are refused.
calls : List ScreenCall
calls =
    sets_gpu (some (any_gpu false))
    ∷ sets_property (FbProperty.resolution (pos 1280) (pos 1024))
    ∷ sets_property (FbProperty.resolution (pos 9000) (pos 1024))
    ∷ sets_gpus (any_gpu false ∷ any_gpu false ∷ any_gpu false ∷ [])
    ∷ sets_number (some (negsuc 0))
    ∷ sets_property (FbProperty.rotate "portrait")
    ∷ []

call_all-IsValid_example : IsValid (call_all calls empty)
unfolding empty new_screen
call_all-IsValid_example = call_all-IsValid calls empty (record {
  properties_valid = record {
    wide = λ w h e. absurd cc;
    stereo_known = λ s e. absurd cc;
    rotation_known = λ s e. absurd cc;
  };
  few_gpus = omega arith;
})

display_of_one : get_display (record empty { gpus = any_gpu false ∷ [] }) ≡ ok ":0.1"
unfolding get_display empty new_screen decimal
display_of_one = refl

get_resolution_lem_example :
    (get_resolution
        (set_fb_property
          (FbProperty.rotate "portrait")
          (set_fb_property (FbProperty.resolution (pos 1280) (pos 1024)) empty).1).1
      ≡ ok (1024, 1280))
    × (get_resolution
          (set_fb_property
            (FbProperty.resolution (pos 1280) (pos 1024))
            (set_fb_property (FbProperty.rotate "portrait") empty).1).1
        ≡ ok (1024, 1280))
unfolding empty new_screen
get_resolution_lem_example =
    get_resolution_lem 1280 1024 "portrait" (omega arith, omega arith) (omega arith, omega arith)
      refl empty refl
