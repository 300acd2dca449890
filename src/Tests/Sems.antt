-- ===== src/Tests/Sems.antt =====
-- A concrete semaphore library, whose semaphore is one byte of the segment that holds the value.
use blade_psgi.Base.{
  ℕ, suc, ◌-◌, ◌+◌, ◌≡◌, refl, ap, Bool, true, false, Option, none, some, arith, ltb, ◌==◌,
  if◌then◌else◌, lt→ltb, ge→ltb,
}
use blade_psgi.Shmem.Memory.{Mem, set_byte}
use blade_psgi.Shmem.PosixSem.{
  SemLib, SemLaws, IsSem, Leaves, eintr, eagain, eoverflow, sem_value_max,
}

abbrev put_value : Mem → ℕ → ℕ → Option ℕ × Mem
put_value m p v = (none, set_byte m p v)

abbrev byte_wait : Bool → Mem → ℕ → Option (Option ℕ × Mem)
byte_wait true m p = some (some eintr, m)
byte_wait false m p = if m p == 0 then none else some (put_value m p (m p - 1))

abbrev byte_trywait : Bool → Mem → ℕ → Option ℕ × Mem
byte_trywait true m p = (some eintr, m)
byte_trywait false m p = if m p == 0 then (some eagain, m) else put_value m p (m p - 1)

abbrev byte_post : Mem → ℕ → Option ℕ × Mem
byte_post m p = if ltb (m p) sem_value_max then put_value m p (m p + 1) else (some eoverflow, m)

abbrev pub byte_sems : SemLib
byte_sems = record {
  sizeof_sem = 32;
  sem_init = put_value;
  sem_getvalue = λ m p. (none, m p);
  sem_wait = byte_wait;
  sem_trywait = byte_trywait;
  sem_post = byte_post;
}

value : (m : Mem) (p v : ℕ) → IsSem byte_sems m p v → m p ≡ v
value m p v h = ap (λ r. r.1) h

leaves : (m : Mem) (p v : ℕ) → Leaves byte_sems m p v (set_byte m p v)
leaves m p v = (ap (λ w. (none, w)) (ground arith), λ q out. ground arith)

takes :
    (m : Mem) (p v : ℕ)
    → m p ≡ suc v
    → ((m p == 0) ≡ false) × (put_value m p (m p - 1) ≡ put_value m p v)
takes m p v h = (ground arith, ap (put_value m p) (omega arith))

pub byte_sems-SemLaws : SemLaws byte_sems
byte_sems-SemLaws = record {
  small = omega arith;
  local = λ m m' p v h same.
      ap (λ w. (none, w)) (omega (arith, value m p v h, same p (omega arith) (omega arith)));
  init_value = λ m p v small. (set_byte m p v, refl, leaves m p v);
  wait_interrupted = λ m p v h. refl;
  wait_blocks = λ m p h. rw (value m p 0 h) refl;
  wait_takes = λ m p v h.
      let t = takes m p v (value m p (suc v) h) in
      (set_byte m p v, rw (t.0, t.1) refl, leaves m p v);
  trywait_interrupted = λ m p v h. refl;
  trywait_fails = λ m p h. rw (value m p 0 h) refl;
  trywait_takes = λ m p v h.
      let t = takes m p v (value m p (suc v) h) in
      (set_byte m p v, rw (t.0, t.1) refl, leaves m p v);
  post_adds = λ m p v h small. (
    set_byte m p (suc v),
    rw (value m p v h, lt→ltb v sem_value_max small) (ap (put_value m p) (omega arith)),
    leaves m p (suc v),
  );
  post_overflows = λ m p v h big. rw (value m p v h, ge→ltb v sem_value_max big) refl;
}
