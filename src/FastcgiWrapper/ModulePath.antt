-- ===== src/FastcgiWrapper/ModulePath.antt =====
-- The path of a module, from its name.
use blade_psgi.Base.{◌≡◌, refl, ap, ◌∙◌, false, List, [], ◌∷◌, ◌++◌, All, All-append, ◌==◌}
use blade_psgi.Base.Bytes.{Bytes, codes}
use blade_psgi.FastcgiWrapper.{slashes, add_pm, module_path}

-- The parts with a separator between them.
abbrev pub join : Bytes → List Bytes → Bytes
join sep [] = []
join sep (part ∷ []) = part
join sep (part ∷ next ∷ parts) = part ++ (sep ++ join sep (next ∷ parts))

-- No byte is a colon or a newline.
abbrev pub IsPart : Bytes → Type 0
IsPart part = All (λ b. ((b == b':') ≡ false) × ((b == 10) ≡ false)) part

slashes-part : (part : Bytes) → IsPart part → slashes part ≡ part
unfolding slashes
slashes-part [] h = refl
slashes-part (b ∷ []) h = refl
slashes-part (b ∷ c ∷ bs) (h, hs) = rw (slashes, h.0) (ap (λ t. b ∷ t) (slashes-part (c ∷ bs) hs))

slashes-behind :
    (part rest : Bytes)
    → IsPart part
    → slashes (part ++ (codes "::" ++ rest)) ≡ part ++ (codes "/" ++ slashes rest)
unfolding slashes
slashes-behind [] rest h = refl
slashes-behind (b ∷ []) rest (h, hs) = rw (slashes, h.0) refl
slashes-behind (b ∷ c ∷ bs) rest (h, hs) =
    rw (slashes, h.0) (ap (λ t. b ∷ t) (slashes-behind (c ∷ bs) rest hs))

slashes-join :
    (parts : List Bytes)
    → All IsPart parts
    → slashes (join (codes "::") parts) ≡ join (codes "/") parts
slashes-join [] h = unfold slashes in refl
slashes-join (part ∷ []) (h, hs) = slashes-part part h
slashes-join (part ∷ next ∷ parts) (h, hs) =
    slashes-behind part (join (codes "::") (next ∷ parts)) h
    ∙ ap (λ t. part ++ (codes "/" ++ t)) (slashes-join (next ∷ parts) hs)

-- No byte is a newline.
abbrev HasNoNewline : Bytes → Type 0
HasNoNewline text = All (λ b. (b == 10) ≡ false) text

add_pm-append : (text : Bytes) → HasNoNewline text → add_pm text ≡ text ++ codes ".pm"
unfolding add_pm
add_pm-append [] h = refl
add_pm-append (b ∷ []) (h, hs) = rw h refl
add_pm-append (b ∷ c ∷ bs) (h, hs) = ap (λ t. b ∷ t) (add_pm-append (c ∷ bs) hs)

IsPart-HasNoNewline : (part : Bytes) → IsPart part → HasNoNewline part
IsPart-HasNoNewline [] h = tt
IsPart-HasNoNewline (b ∷ bs) (h, hs) = (h.1, IsPart-HasNoNewline bs hs)

join-HasNoNewline : (parts : List Bytes) → All IsPart parts → HasNoNewline (join (codes "/") parts)
join-HasNoNewline [] h = tt
join-HasNoNewline (part ∷ []) (h, hs) = IsPart-HasNoNewline part h
join-HasNoNewline (part ∷ next ∷ parts) (h, hs) =
    All-append (λ b. (b == 10) ≡ false) part (codes "/" ++ join (codes "/") (next ∷ parts))
      (IsPart-HasNoNewline part h) (refl, join-HasNoNewline (next ∷ parts) hs)

-- The two substitutions of the wrapper make, of the parts of a module's name with `::` between them,
-- the path that `require` takes: the parts with `/` between them, and `.pm` at the end. No part has a
-- colon or a newline.
pub module_path-join :
    (parts : List Bytes)
    → All IsPart parts
    → module_path (join (codes "::") parts) ≡ join (codes "/") parts ++ codes ".pm"
module_path-join parts h =
    ap add_pm (slashes-join parts h)
    ∙ add_pm-append (join (codes "/") parts) (join-HasNoNewline parts h)
