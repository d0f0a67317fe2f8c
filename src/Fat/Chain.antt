-- ===== src/Fat/Chain.antt =====
-- `fat_clchain_create`: the clusters of a file, along the links of the FAT.
use mein_os.Prelude.{
  ℕ, zero, suc, ◌+◌, ◌-◌, ◌*◌, ◌/◌, ◌%◌, ◌^◌, ◌≤◌, ◌≡◌, refl, sym, ap, ◌∙◌, ◌↔◌, inl, inr, Bool,
  true, false, ◌||◌, Option, none, some, List, [], ◌∷◌, map, arith, ltb, ◌==◌, if◌then◌else◌,
  Bool-cases, length,
}
use mathlib.Core.Path.{subst}
use mein_os.Fat.{
  FatFs, FatType, ReadResult, fat12, fat16, fat32, fat_start, bytes_read, untouched, no_block,
  past_block, past_chain, unfinished, fat_read,
}

-- The value of the bytes, the low one first
abbrev pub value_of : List ℕ → ℕ
value_of [] = 0
value_of (b ∷ bs) = b + 256 * value_of bs

-- Where the entry of a cluster stands, and how many bytes `fat_clchain_create` reads there
abbrev pub entry_at : FatType → ℕ → ℕ
entry_at fat12 c = c * 3 % 2 ^ 32 / 2
entry_at fat16 c = c * 2 % 2 ^ 32
entry_at fat32 c = c * 4 % 2 ^ 32

abbrev pub entry_size : FatType → ℕ
entry_size fat12 = 2
entry_size fat16 = 2
entry_size fat32 = 4

-- The entry in the bytes that were read
abbrev pub entry_value : FatType → (c raw : ℕ) → ℕ
entry_value fat12 c raw = if c % 2 == 1 then raw / 16 % 0x1000 else raw % 0x1000
entry_value fat16 c raw = raw
entry_value fat32 c raw = raw % 0x10000000

abbrev pub last_limit : FatType → ℕ
last_limit fat12 = 0xFF7
last_limit fat16 = 0xFFF7
last_limit fat32 = 0xFFFFFF7

-- Is this the entry of the last cluster?
abbrev pub is_last : FatType → (ent : ℕ) → Bool
is_last t ent = ltb ent 0x3 || ltb (last_limit t) ent

-- The entry of a cluster, where `fat_read` fills it in
abbrev pub entry_from : FatType → (c : ℕ) → ReadResult → Option ℕ
entry_from t c (bytes_read bs) = some (entry_value t c (value_of bs))
entry_from t c untouched = none
entry_from t c no_block = none
entry_from t c past_block = none
entry_from t c past_chain = none
entry_from t c unfinished = none

unfoldable pub fat_entry : FatFs → ℕ → Option ℕ
fat_entry fs c = entry_from fs.type_is c (
    fat_read fs ((fat_start fs.bootsector + entry_at fs.type_is c) % 2 ^ 64)
      (entry_size fs.type_is))

-- The position of a cluster on the volume
abbrev pub position : FatFs → ℕ → ℕ
position fs c =
    (fs.data_area
      + (c + 2 ^ 64 - 2) % 2 ^ 64 * fs.bootsector.cluster_size * fs.bootsector.sector_size)
    % 2 ^ 64

-- What the loop comes to: the positions, or an entry that could not be read; `endless` is for want of
-- fuel.
pub data ChainResult : Type 0 where
  clusters : List ℕ → ChainResult
  no_entry : ChainResult
  endless : ChainResult

abbrev pub with_cluster : ℕ → ChainResult → ChainResult
with_cluster p (clusters ps) = clusters (p ∷ ps)
with_cluster p no_entry = no_entry
with_cluster p endless = endless

-- One turn of the loop at the cluster `c`, with its entry
abbrev pub along : FatFs → ℕ → Option ℕ → (ℕ → ChainResult) → ChainResult
along fs c none rest = no_entry
along fs c (some ent) rest =
    with_cluster (position fs c) (if is_last fs.type_is ent then clusters [] else rest ent)

-- `fat_clchain_create`
unfoldable pub fat_clchain_create : FatFs → (fuel first_cluster : ℕ) → ChainResult
fat_clchain_create fs zero c = endless
fat_clchain_create fs (suc n) c = along fs c (fat_entry fs c) (fat_clchain_create fs n)

-- The clusters that the entries of the FAT link, to the last one
pub data Links (fs : FatFs) : ℕ → List ℕ → Type 0 where
  last :
      (c ent : ℕ) → fat_entry fs c ≡ some ent → is_last fs.type_is ent ≡ true → Links fs c (c ∷ [])
  link :
      (c ent : ℕ) (cs : List ℕ)
      → fat_entry fs c ≡ some ent
      → is_last fs.type_is ent ≡ false
      → Links fs ent cs
      → Links fs c (c ∷ cs)

Links-create :
    (fs : FatFs) (c : ℕ) (path : List ℕ)
    → Links fs c path
    → (fuel : ℕ) → length path ≤ fuel
    → fat_clchain_create fs fuel c ≡ clusters (map (position fs) path)
unfolding fat_clchain_create
Links-create fs _ _ (last c ent e l) zero few = absurd (omega (arith, few))
Links-create fs _ _ (last c ent e l) (suc n) few =
    ap (λ o. along fs c o (fat_clchain_create fs n)) e ∙ rw l refl
Links-create fs _ _ (link c ent cs e l r) zero few = absurd (omega (arith, few))
Links-create fs _ _ (link c ent cs e l r) (suc n) few =
    ap (λ o. along fs c o (fat_clchain_create fs n)) e
    ∙ rw (l, Links-create fs ent cs r n (omega (arith, few))) refl

-- The positions are those of clusters that are linked.
abbrev From : FatFs → ℕ → ChainResult → Type 0
From fs c (clusters ps) = (path : List ℕ) × Links fs c path × (ps ≡ map (position fs) path)
From fs c no_entry = Unit
From fs c endless = Unit

more-From :
    (fs : FatFs) (c ent : ℕ) (r : ChainResult)
    → fat_entry fs c ≡ some ent
    → is_last fs.type_is ent ≡ false
    → From fs ent r
    → From fs c (with_cluster (position fs c) r)
more-From fs c ent (clusters ps) e l (path, links, same) =
    (c ∷ path, link c ent path e l links, ap (λ xs. position fs c ∷ xs) same)
more-From fs c ent no_entry e l f = tt
more-From fs c ent endless e l f = tt

create-From : (fs : FatFs) (n c : ℕ) → From fs c (fat_clchain_create fs n c)
unfolding fat_clchain_create
create-From fs zero c = tt
create-From fs (suc n) c = go (fat_entry fs c) refl (λ ent. create-From fs n ent)
  where
    go :
        (o : Option ℕ)
        → fat_entry fs c ≡ o
        → ((ent : ℕ) → From fs ent (fat_clchain_create fs n ent))
        → From fs c (along fs c o (fat_clchain_create fs n))
    go none e rec = tt
    go (some ent) e rec = elim (Bool-cases (is_last fs.type_is ent)) [
      | inl l ↦ rw l (c ∷ [], last c ent e l, refl)
      | inr l ↦ rw l (more-From fs c ent (fat_clchain_create fs n ent) e l (rec ent))
    ]

-- The loop ends with some fuel exactly where the entries that it reads are linked to a last one.
pub create-Links :
    (fs : FatFs) (c : ℕ) (ps : List ℕ)
    → ((n : ℕ) × (fat_clchain_create fs n c ≡ clusters ps))
      ↔ ((path : List ℕ) × Links fs c path × (ps ≡ map (position fs) path))
create-Links fs c ps = (linked, created)
  where
    linked :
        (n : ℕ) × (fat_clchain_create fs n c ≡ clusters ps)
        → (path : List ℕ) × Links fs c path × (ps ≡ map (position fs) path)
    linked (n, e) = subst (From fs c) e (create-From fs n c)

    created :
        (path : List ℕ) × Links fs c path × (ps ≡ map (position fs) path)
        → (n : ℕ) × (fat_clchain_create fs n c ≡ clusters ps)
    created (path, links, same) = (
      length path,
      Links-create fs c path links (length path) (omega arith) ∙ ap clusters (sym same),
    )
