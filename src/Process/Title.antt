-- ===== src/Process/Title.antt =====
-- `SetProcessTitle` of src/bladepsgi.cpp on Linux: the title overwrites the arguments of the program.
-- The memory of the process is a function of the address; an argument is the address and the
-- length of its text, and `environ[0]` is an address.
use blade_psgi.Base.{
  ℕ, zero, suc, ◌+◌, ◌-◌, ◌^◌, ◌≤◌, ◌<◌, ◌≡◌, refl, sym, ap, ◌∙◌, ◌⊎◌, inl, inr, List, [], ◌∷◌,
  ◌++◌, arith, append_assoc, take, replicate, length, length-append, length-replicate, ◌==◌,
  if◌then◌else◌, Bool-cases,
}
use blade_psgi.Base.Bytes.{Bytes, codes}
use blade_psgi.Base.Words.{u64}
use blade_psgi.Shmem.Memory.{Mem, set_byte}

pub record Argument : Type 0 where
  pub address : ℕ
  pub len : ℕ

-- The end of the arguments that lie behind `end` without a gap.
unfoldable pub arguments_end : ℕ → List Argument → ℕ
arguments_end end [] = end
arguments_end end (a ∷ rest) =
    let behind = arguments_end (a.address + a.len) rest in
    if end + 1 == a.address then behind else end

-- memcpy
unfoldable pub write_bytes : Mem → ℕ → Bytes → Mem
write_bytes m p [] = m
write_bytes m p (b ∷ bs) = write_bytes (set_byte m p b) (p + 1) bs

-- `full_title.substr(0, maxlen)`, resized to `maxlen + 1` bytes.
abbrev pub padded : ℕ → Bytes → Bytes
padded maxlen title =
    let text = take maxlen title in
    take (u64 (maxlen + 1)) (text ++ replicate (maxlen + 1 - length text) 0)

abbrev pub full_title : Bytes → Bytes → Bytes
full_title prefix value = prefix ++ codes ": " ++ value

-- `argv[0]` and the other arguments.
unfoldable pub set_process_title : Bytes → Argument → List Argument → ℕ → Bytes → Mem → Mem
set_process_title prefix first rest environ value m =
    let end = arguments_end (first.address + first.len) rest in
    let title = full_title prefix value in
    if environ == end + 1
    then write_bytes (set_byte m end b' ') first.address
        (padded (u64 (end + (2 ^ 64 - first.address) - 1)) title)
    else write_bytes m first.address (padded (end - first.address) title)

-- The bytes at `p` are `bs`.
abbrev pub Holds : Mem → ℕ → Bytes → Type 0
Holds m p [] = Unit
Holds m p (b ∷ bs) = (m p ≡ b) × Holds m (p + 1) bs

pub write_bytes_outside :
    (m : Mem) (p : ℕ) (bs : Bytes) (q : ℕ)
    → (q < p) ⊎ (p + length bs ≤ q)
    → write_bytes m p bs q ≡ m q
unfolding write_bytes
write_bytes_outside m p [] q h = refl
write_bytes_outside m p (b ∷ bs) q h =
    ground (arith, write_bytes_outside (set_byte m p b) (p + 1) bs q)

write_bytes-Holds : (m : Mem) (p : ℕ) (bs cs : Bytes) → Holds (write_bytes m p (bs ++ cs)) p bs
unfolding write_bytes
write_bytes-Holds m p [] cs = tt
write_bytes-Holds m p (b ∷ bs) cs = (
  write_bytes_outside (set_byte m p b) (p + 1) (bs ++ cs) p (inl (omega arith)) ∙ ground arith,
  write_bytes-Holds (set_byte m p b) (p + 1) bs cs,
)

length-take : (n : ℕ) (bs : Bytes) → length (take n bs) ≤ n
length-take zero bs = omega arith
length-take (suc n) [] = omega arith
length-take (suc n) (b ∷ bs) = omega (arith, length-take n bs)

take_all : (bs : Bytes) (n : ℕ) → length bs ≡ n → take n bs ≡ bs
take_all [] zero h = refl
take_all [] (suc n) h = refl
take_all (b ∷ bs) zero h = absurd (omega arith)
take_all (b ∷ bs) (suc n) h = ap (λ t. b ∷ t) (take_all bs n (omega arith))

arguments_end-lt : (end : ℕ) (rest : List Argument) → end ≤ arguments_end end rest
unfolding arguments_end
arguments_end-lt end [] = omega arith
arguments_end-lt end (a ∷ rest) = ground (arith, arguments_end-lt (a.address + a.len) rest)

-- What the title's buffer holds: the text with its terminating zero, then zeros.
padded_lem :
    (n : ℕ) (title : Bytes)
    → n + 1 < 2 ^ 64
    → (zeros : Bytes) × (padded n title ≡ (take n title ++ 0 ∷ []) ++ zeros)
      × (length (padded n title) ≡ n + 1)
padded_lem n title h =
    let text = take n title in
    let k = n - length text in
    let fits : length text ≤ n = length-take n title in
    let all = text ++ replicate (n + 1 - length text) 0 in
    let size : length all ≡ n + 1 =
      length-append text (replicate (n + 1 - length text) 0)
      ∙ ap (λ j. length text + j) (length-replicate (n + 1 - length text) 0)
      ∙ omega arith in
    let whole : padded n title ≡ all = take_all all (u64 (n + 1)) (omega (arith, size)) in
    let zero_first : replicate (n + 1 - length text) 0 ≡ 0 ∷ replicate k 0 =
      ap (λ j. replicate j 0) (one_more n (length text) fits) in
    (
      replicate k 0,
      whole ∙ ap (λ t. text ++ t) zero_first ∙ sym (append_assoc text (0 ∷ []) (replicate k 0)),
      ap length whole ∙ size,
    )
  where
    one_more : (n l : ℕ) → l ≤ n → n + 1 - l ≡ suc (n - l)
    one_more n l h = omega arith

-- The bytes of the title that there is room for.
abbrev pub room : ℕ → ℕ → ℕ → ℕ
room start end environ = if environ == end + 1 then end - start - 1 else end - start

-- With a name of at least one byte, at addresses below 2^64: the text at `argv[0]` is the title, cut
-- to the room that the arguments have, and ends there with a zero; no byte outside the arguments
-- and the one behind them is changed.
pub set_process_title-Holds :
    (prefix : Bytes) (first : Argument) (rest : List Argument) (environ : ℕ) (value : Bytes)
    (m : Mem)
    → 0 < first.len
    → arguments_end (first.address + first.len) rest + 2 < 2 ^ 64
    → let end = arguments_end (first.address + first.len) rest in
      let t = set_process_title prefix first rest environ value m in
      Holds t first.address
        (take (room first.address end environ) (full_title prefix value) ++ 0 ∷ [])
      × ((q : ℕ) → (q < first.address) ⊎ (end < q) → t q ≡ m q)
unfolding set_process_title
set_process_title-Holds prefix first rest environ value m named low =
    let end = arguments_end (first.address + first.len) rest in
    let title = full_title prefix value in
    let behind : first.address + first.len ≤ end =
      arguments_end-lt (first.address + first.len) rest in
    elim (Bool-cases (environ == end + 1)) [
      | inl e ↦
          let n = end - first.address - 1 in
          let wrap : u64 (end + (2 ^ 64 - first.address) - 1) ≡ n = omega (arith, behind) in
          let (zeros, p, size) = padded_lem n title (omega arith) in
          rw (e, wrap)
            (
              rw p (
                  write_bytes-Holds (set_byte m end b' ') first.address (take n title ++ 0 ∷ [])
                    zeros),
              λ q out.
                  write_bytes_outside (set_byte m end b' ') first.address (padded n title) q
                    (omega (arith, size, behind, out))
                  ∙ set_byte_far m end q b' ' (omega (arith, behind, out)),
            )
      | inr e ↦
          let n = end - first.address in
          let (zeros, p, size) = padded_lem n title (omega arith) in
          rw e (
            rw p (write_bytes-Holds m first.address (take n title ++ 0 ∷ []) zeros),
            λ q out.
                write_bytes_outside m first.address (padded n title) q
                  (omega (arith, size, behind, out)),
          )
    ]
  where
    set_byte_far : (m : Mem) (p q b : ℕ) → (q < p) ⊎ (p < q) → set_byte m p b q ≡ m q
    set_byte_far m p q b h = ground arith
