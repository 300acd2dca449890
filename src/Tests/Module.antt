-- ===== src/Tests/Module.antt =====
-- Calls of the methods of the Perl module, on the segment of Tests/Segment.antt.
use blade_psgi.Base.{◌^◌, ◌≡◌, refl, Option, none, some, [], ◌∷◌, All, arith}
use blade_psgi.Base.Bytes.{codes, same}
use blade_psgi.Base.Words.{pos, negsuc}
use blade_psgi.Base.Outcome.{Outcome, ok, aborted}
use blade_psgi.MainApp.{new_main_app}
use blade_psgi.PerlGlue.{plain}
use blade_psgi.PerlBridge.{cb_new_semaphore}
use blade_psgi.Shmem.{new_semaphore, allocate_user_shmem, semaphore_exists}
use blade_psgi.PerlModule.{
  World, Value, sv, object, unset, context_class, semaphore_class, atomic_int64_class, Reply,
  returns, t_ptrobj_special,
}
use blade_psgi.PerlModule.ContextMethods.{context_is_worker, context_new_semaphore}
use blade_psgi.PerlModule.ObjectMethods.{
  atomic_int64_store, atomic_int64_load, atomic_int64_fetch_add,
}
use blade_psgi.PerlModule.Held.{IsHeld, IsSound}
use blade_psgi.PerlModule.Requests.{IsServing}
use blade_psgi.PerlModule.Calls.{
  makes_semaphore, releases, invoke, Reaches, begins, calls, Reaches-IsSound,
}
use blade_psgi.PerlModule.Integers.{has_returned, stored-Loads}
use blade_psgi.Tests.Sems.{byte_sems}
use blade_psgi.Tests.Segment.{shm}

abbrev world : World
world = record {
  ctx = 7;
  context = record { mainapp = 1; worker = none };
  serving = record {
    fastcgi_sockfd = some 3;
    psgi_application_path = some (codes "app.psgi");
    psgi_application_loader = none;
  };
  mainapp = new_main_app shm;
  callbacks = [];
  handles = [];
  retained = [];
}

abbrev self : Value
self = object context_class 7

serves : IsServing world.serving
serves = record { fd = 3; has_fd = refl; path = codes "app.psgi"; has_path = refl }

abbrev world_of : Option (Outcome Reply × World) → World
world_of none = world
world_of (some (o, w)) = w

abbrev gate : Value
gate = object semaphore_class 0

abbrev later : World
later =
    world_of
      (invoke byte_sems (λ n. codes "error") self (makes_semaphore (codes "gate") (pos 3)) world)

semaphore_made : Reaches byte_sems (λ n. codes "error") world later (gate ∷ self ∷ [])
unfolding invoke context_new_semaphore t_ptrobj_special cb_new_semaphore new_semaphore
    allocate_user_shmem semaphore_exists same
semaphore_made =
    calls world later (self ∷ []) self (makes_semaphore (codes "gate") (pos 3)) (returns gate)
      begins (0, refl) refl

Reaches-IsSound_example :
    All (IsHeld later) (gate ∷ self ∷ [])
    × IsSound later Unit (invoke byte_sems (λ n. codes "error") gate releases later)
Reaches-IsSound_example =
    Reaches-IsSound byte_sems (λ n. codes "error") world later (gate ∷ self ∷ []) gate releases
      serves semaphore_made (0, refl)

-- The name of a class in place of an object is a fault.
class_name_faults :
    context_is_worker (sv (plain (codes "BPSGI::Context"))) world ≡ some (aborted, world)
unfolding context_is_worker t_ptrobj_special same
class_name_faults = refl

-- An addition of 2^32 adds nothing.
wide_addition :
    atomic_int64_fetch_add (object atomic_int64_class 48) (pos (2 ^ 32)) world
    ≡ atomic_int64_fetch_add (object atomic_int64_class 48) (pos 0) world
unfolding atomic_int64_fetch_add t_ptrobj_special
wide_addition = refl

stored-Loads_example :
    let atm = object atomic_int64_class 48 in
    (w' : World) × (atomic_int64_store atm (negsuc 6) world ≡ some (ok (returns unset), w'))
    × (atomic_int64_load atm w' ≡ has_returned (negsuc 6) w')
    × (w'' : World) × (atomic_int64_fetch_add atm (pos 10) w' ≡ has_returned (negsuc 6) w'')
    × (atomic_int64_load atm w'' ≡ has_returned (pos 3) w'')
stored-Loads_example = stored-Loads world 48 (negsuc 6) (pos 10) (omega arith) (omega arith)
