-- ===== src/PerlModule/Held.antt =====
-- The objects that the methods have given to Perl, and what the methods keep of them.
use blade_psgi.Base.{
  ℕ, ◌≡◌, refl, sym, ◌∙◌, true, false, Option, none, some, get_elem?, ◌==◌, arith,
}
use blade_psgi.Base.Bytes.{Bytes}
use blade_psgi.Base.Outcome.{Outcome, ok, throw, exited, aborted}
use blade_psgi.Shmem.{Semaphore, AtomicInt64}
use blade_psgi.PerlInterpreter.{Context}
use blade_psgi.PerlModule.{
  Class, context_class, semaphore_class, atomic_int64_class, Value, sv, iv, truth, object, unset,
  Reply, returns, croaks, World, Method, derived_from, t_ptrobj_special, with_context,
  with_semaphore,
}

-- An object refers to the context, to a struct that holds a semaphore of the table, or to an integer of
-- the table.
abbrev pub IsHeld : World → Value → Type 0
IsHeld w (object context_class p) = p ≡ w.ctx
IsHeld w (object semaphore_class p) =
    (x : Semaphore) × (get_elem? w.handles p ≡ some (some x))
    × (i : ℕ) × (get_elem? w.mainapp.shmem.semaphores i ≡ some x)
IsHeld w (object atomic_int64_class p) =
    (i : ℕ) × (a : AtomicInt64) × (get_elem? w.mainapp.shmem.atomics i ≡ some a) × (a.ptr ≡ p)
IsHeld w _ = Unit

-- What a method is called on: such an object, or a value that is not the name of a class.
abbrev pub IsReceiver : World → Value → Type 0
IsReceiver w (object k p) = IsHeld w (object k p)
IsReceiver w v = (k : Class) → derived_from k v ≡ false

-- The structs that hold a semaphore and the tables keep their entries.
pub record Grows (w w' : World) : Type 0 where
  pub same_ctx : w'.ctx ≡ w.ctx
  pub same_serving : w'.serving ≡ w.serving
  pub handles :
      (p : ℕ) (x : Semaphore)
      → get_elem? w.handles p ≡ some (some x)
      → get_elem? w'.handles p ≡ some (some x)
  pub semaphores :
      (i : ℕ) (x : Semaphore)
      → get_elem? w.mainapp.shmem.semaphores i ≡ some x
      → get_elem? w'.mainapp.shmem.semaphores i ≡ some x
  pub atomics :
      (i : ℕ) (a : AtomicInt64)
      → get_elem? w.mainapp.shmem.atomics i ≡ some a
      → get_elem? w'.mainapp.shmem.atomics i ≡ some a

pub same-Grows : (w : World) → Grows w w
same-Grows w = record {
  same_ctx = refl;
  same_serving = refl;
  handles = λ p x e. e;
  semaphores = λ i x e. e;
  atomics = λ i a e. e;
}

pub IsHeld-Grows : (w w' : World) (v : Value) → Grows w w' → IsHeld w v → IsHeld w' v
IsHeld-Grows w w' (object context_class p) g h = h ∙ sym g.same_ctx
IsHeld-Grows w w' (object semaphore_class p) g (x, e, i, f) =
    (x, g.handles p x e, i, g.semaphores i x f)
IsHeld-Grows w w' (object atomic_int64_class p) g (i, a, e, f) = (i, a, g.atomics i a e, f)
IsHeld-Grows w w' (sv s) g h = tt
IsHeld-Grows w w' (iv z) g h = tt
IsHeld-Grows w w' (truth b) g h = tt
IsHeld-Grows w w' unset g h = tt

-- The method returns or croaks, or it waits or throws where it may: it does not end the process.
module _ (w : World) (MayFail : Type 0) where
  abbrev pub IsSound : Option (Outcome Reply × World) → Type 0
  IsSound none = MayFail
  IsSound (some (ok (returns v), w')) = Grows w w' × IsHeld w' v
  IsSound (some (ok (croaks text), w')) = Grows w w'
  IsSound (some (throw e, w')) = MayFail × Grows w w'
  IsSound (some (exited n, w')) = ⊥
  IsSound (some (aborted, w')) = ⊥

  -- The check of the type lets through an object of the class only.
  pub t_ptrobj_special-IsSound :
      (k : Class) (var : Bytes) (v : Value) (f : ℕ → Method)
      → IsReceiver w v
      → ((p : ℕ) → IsHeld w (object k p) → IsSound (f p w))
      → IsSound (t_ptrobj_special k var v f w)
  unfolding t_ptrobj_special
  t_ptrobj_special-IsSound k var (sv s) f h sound = rw (h k) (same-Grows w)
  t_ptrobj_special-IsSound k var (iv z) f h sound = same-Grows w
  t_ptrobj_special-IsSound k var (truth b) f h sound = same-Grows w
  t_ptrobj_special-IsSound k var unset f h sound = same-Grows w
  t_ptrobj_special-IsSound context_class var (object context_class p) f h sound = sound p h
  t_ptrobj_special-IsSound context_class var (object semaphore_class p) f h sound = same-Grows w
  t_ptrobj_special-IsSound context_class var (object atomic_int64_class p) f h sound = same-Grows w
  t_ptrobj_special-IsSound semaphore_class var (object context_class p) f h sound = same-Grows w
  t_ptrobj_special-IsSound semaphore_class var (object semaphore_class p) f h sound = sound p h
  t_ptrobj_special-IsSound semaphore_class var (object atomic_int64_class p) f h sound =
      same-Grows w
  t_ptrobj_special-IsSound atomic_int64_class var (object context_class p) f h sound = same-Grows w
  t_ptrobj_special-IsSound atomic_int64_class var (object semaphore_class p) f h sound =
      same-Grows w
  t_ptrobj_special-IsSound atomic_int64_class var (object atomic_int64_class p) f h sound =
      sound p h

  pub with_context-IsSound :
      (v : Value) (f : Context → Method)
      → IsReceiver w v
      → IsSound (f w.context w)
      → IsSound (with_context v f w)
  with_context-IsSound v f h sound =
      t_ptrobj_special-IsSound context_class _ v _ h
        (λ p e. let here : (p == w.ctx) ≡ true = ground arith in rw here sound)

  pub with_semaphore-IsSound :
      (v : Value) (f : Option Semaphore → Method)
      → IsReceiver w v
      → ((x : Semaphore) → IsSound (f (some x) w))
      → IsSound (with_semaphore v f w)
  with_semaphore-IsSound v f h sound =
      t_ptrobj_special-IsSound semaphore_class _ v _ h (λ p g. rw g.1 (sound g.0))
