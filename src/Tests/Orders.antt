-- ===== src/Tests/Orders.antt =====
-- Two orders of the same accesses.
use mathlib.Core.List.{Perm}
use mathlib.Core.List.Perm
use blade_psgi.Base.{ℕ, ◌<◌, refl, List, [], ◌∷◌, All, arith, Bool-cases, inl, inr, ◌==◌}
use blade_psgi.Shmem.Accesses.{Access, request_exit, count_request, report_status, add_to, after}
use blade_psgi.Shmem.Orders.{IsAccess, SameView, after-SameView}
use blade_psgi.Tests.Segment.{shm, shm-IsLaidOut, hits, misses}

abbrev one_order : List Access
one_order = add_to 48 5 ∷ count_request ∷ add_to 64 2 ∷ report_status 1 65 ∷ request_exit ∷ []

abbrev other_order : List Access
other_order = count_request ∷ add_to 48 5 ∷ add_to 64 2 ∷ request_exit ∷ report_status 1 65 ∷ []

one_order-IsAccess : All (IsAccess shm) one_order
one_order-IsAccess = ((0, hits, refl, refl), (tt, ((1, misses, refl, refl), (tt, (tt, tt)))))

other_order-IsAccess : All (IsAccess shm) other_order
other_order-IsAccess = (tt, ((0, hits, refl, refl), ((1, misses, refl, refl), (tt, (tt, tt)))))

orders-Perm : Perm one_order other_order
orders-Perm =
    Perm.trans (Perm.swap _ _ _) (Perm.cons _ (Perm.cons _ (Perm.cons _ (Perm.swap _ _ _))))

bytes : (q : ℕ) → shm.segment q < 256
bytes q = elim (Bool-cases (q == 16)) [ inl e ↦ rw e (omega arith) | inr e ↦ rw e (omega arith) ]

after-SameView_example : SameView shm (after shm one_order) (after shm other_order)
after-SameView_example =
    after-SameView shm-IsLaidOut one_order other_order bytes one_order-IsAccess other_order-IsAccess
      orders-Perm
