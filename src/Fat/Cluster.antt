-- ===== src/Fat/Cluster.antt =====
-- `fat_cluster_read` and `fat_fs_file_read`: the bytes of a file, cluster by cluster.
use mein_os.Prelude.{
  ℕ, zero, suc, ◌+◌, ◌-◌, ◌*◌, ◌/◌, ◌%◌, ◌^◌, ◌≤◌, ◌<◌, ◌≡◌, refl, ap, ◌∙◌, ◌⊎◌, min, inl, inr,
  false, some, List, [], arith, ltb, ◌==◌, if◌then◌else◌, Bool-cases, length, get_elem?,
}
use native.Mathlib.Nat.{
  mod-add-div', mod-lt, mod-eq_of_lt, mul-le-mul_right, mul-pos, mod-mod_of_dvd, dvd-mul_left,
  div-le_self,
}
use mein_os.Fat.{
  FatFs, bytes, cluster_bytes, bytes_read, into_buffer, fat_read, read_clusters, fat_cluster_read,
  fat_fs_file_read,
}
use mein_os.Fat.Bytes.{bytes-join}
use mein_os.Fat.Part.{position_in, file_byte, IsChain, position_in-some, part-Bytes}

-- What the loop reads from one cluster
abbrev now : (room rem : ℕ) → ℕ
now room rem = if ltb rem room then rem else room

now_le : (room rem : ℕ) → now room rem ≤ room
now_le room rem = ground arith

now_le_all : (room rem : ℕ) → now room rem ≤ rem
now_le_all room rem = ground arith

now_room : (room rem : ℕ) → ltb rem room ≡ false → now room rem ≡ room
now_room room rem e = ground (arith, e)

read_clusters_step :
    (fs : FatFs) (chain : List ℕ) (old : ℕ → ℕ) (n num offset done rem c : ℕ)
    → 0 < rem
    → get_elem? chain num ≡ some c
    → read_clusters fs chain old (suc n) num offset done rem
      ≡ into_buffer
          (bytes old done (now (cluster_bytes fs.bootsector - offset) rem))
          (fat_read fs ((c + offset) % 2 ^ 64) (now (cluster_bytes fs.bootsector - offset) rem))
          (read_clusters fs chain old n
            (num + 1)
            0
            (done + now (cluster_bytes fs.bootsector - offset) rem)
            (rem - now (cluster_bytes fs.bootsector - offset) rem))
unfolding read_clusters
read_clusters_step fs chain old n num offset done rem c pos e = rw (some_left, e) refl
  where
    some_left : (rem == 0) ≡ false
    some_left = ground (arith, pos)

read_clusters_done :
    (fs : FatFs) (chain : List ℕ) (old : ℕ → ℕ) (n num offset done : ℕ)
    → read_clusters fs chain old n num offset done 0 ≡ bytes_read []
unfolding read_clusters
read_clusters_done fs chain old zero num offset done = refl
read_clusters_done fs chain old (suc n) num offset done = refl

one_more : {a b : ℕ} → a < b → a + 1 ≤ b
one_more h = omega (arith, h)

module _ (fs : FatFs) (chain : List ℕ) (old : ℕ → ℕ) (ch : IsChain fs chain) where
  abbrev size : ℕ
  size = fs.bootsector.sector_size

  abbrev cs : ℕ
  cs = cluster_bytes fs.bootsector

  -- The number of a cluster, where there is still something to read from it
  on_chain :
      (num offset rem : ℕ)
      → num * cs + offset + rem ≤ length chain * cs
      → 0 < rem
      → num < length chain
  on_chain num offset rem inside pos = elim (Bool-cases (ltb num (length chain))) [
    | inl e ↦ ground (arith, e)
    | inr e ↦
        let few : length chain ≤ num = ground (arith, e) in
        absurd (omega (arith, mul-le-mul_right cs few, inside, pos))
  ]

  read_clusters-Bytes :
      (n num offset done rem : ℕ)
      → rem ≤ n
      → offset < cs
      → offset % size ≡ 0
      → num * cs + offset + rem ≤ length chain * cs
      → read_clusters fs chain old n num offset done rem
        ≡ bytes_read (bytes (file_byte fs chain) (num * cs + offset) rem)
  read_clusters-Bytes n num offset done zero fuel less at inside =
      read_clusters_done fs chain old n num offset done
  read_clusters-Bytes zero num offset done (suc r) fuel less at inside =
      absurd (omega (arith, fuel))
  read_clusters-Bytes (suc n) num offset done (suc r) fuel less at inside =
      read_clusters_step fs chain old n num offset done (suc r) (position_in chain num)
        (omega arith) (position_in-some chain num on)
      ∙ rw
          (
            part-Bytes fs chain ch num offset part on at
                (omega (arith, now_le (cs - offset) (suc r), less)) some_part,
            read_clusters-Bytes n (num + 1) 0 (done + part) (suc r - part)
                (omega (arith, some_part, fuel)) (omega (arith, less)) (mod-eq_of_lt ch.some_bytes)
                (omega (arith, next, further)),
          )
          (ap bytes_read (
            bytes-join (file_byte fs chain) (num * cs + offset) ((num + 1) * cs + 0) part
              (suc r - part) (suc r) next (omega (arith, now_le_all (cs - offset) (suc r)))))
    where
      on : num < length chain
      on = on_chain num offset (suc r) inside (omega arith)

      part : ℕ
      part = now (cs - offset) (suc r)

      some_part : 0 < part
      some_part = ground (arith, less)

      further : (num + 1) * cs ≤ length chain * cs
      further = mul-le-mul_right cs (one_more on)

      next : ((num + 1) * cs + 0 ≡ num * cs + offset + part) ⊎ (suc r - part ≡ 0)
      next = elim (Bool-cases (ltb (suc r) (cs - offset))) [
        | inl e ↦ inr (rw e (omega arith))
        | inr e ↦ inl (omega (arith, now_room (cs - offset) (suc r) e, less))
      ]

  pub fat_cluster_read-Bytes :
      (start n : ℕ)
      → start % size ≡ 0
      → start + n ≤ length chain * cs
      → start / cs < 2 ^ 32
      → fat_cluster_read fs chain old start n ≡ bytes_read (bytes (file_byte fs chain) start n)
  unfolding fat_cluster_read
  fat_cluster_read-Bytes start n at inside few = rw number (
      read_clusters-Bytes n (start / cs) (start % cs) 0 n (omega arith) (mod-lt start some_room)
        on_sector (omega (arith, position, inside))
      ∙ ap (λ p. bytes_read (bytes (file_byte fs chain) p n)) position)
    where
      number : start / cs % 2 ^ 32 ≡ start / cs
      number = omega (arith, few)

      some_room : 0 < cs
      some_room = mul-pos ch.some_sectors ch.some_bytes

      on_sector : start % cs % size ≡ 0
      on_sector = mod-mod_of_dvd size start (dvd-mul_left size fs.bootsector.cluster_size) ∙ at

      position : start / cs * cs + start % cs ≡ start
      position = omega (arith, mod-add-div' start cs)

  -- The cache has a block for each sector of the volume, the clusters of a file stand on sectors and
  -- hold the whole file, and the sizes are below 2 ^ 32. Then `fat_fs_file_read` from the start of a
  -- sector gives the bytes of the file from there on, as many as were asked for or as there are up
  -- to the end of the file.
  pub fat_fs_file_read-Bytes :
      (filesize start n : ℕ)
      → filesize ≤ length chain * cs
      → filesize < 2 ^ 32
      → n < 2 ^ 32
      → start % size ≡ 0
      → fat_fs_file_read fs chain filesize old start n ≡ (
        min n (filesize - start),
        bytes_read (bytes (file_byte fs chain) start (min n (filesize - start))),
      )
  unfolding fat_fs_file_read
  fat_fs_file_read-Bytes filesize start n whole small small' at =
      elim (Bool-cases (ltb filesize start)) [
        | inl e ↦
            let nothing : min n (filesize - start) ≡ 0 = ground (arith, e) in rw (e, nothing) refl
        | inr e ↦
            let before : start ≤ filesize = ground (arith, e) in
            let part : (if ltb filesize ((start + n) % 2 ^ 64) then filesize - start else n)
                ≡ min n (filesize - start) =
              ground (arith, before, small, small') in
            rw
              (
                e,
                part,
                fat_cluster_read-Bytes start (min n (filesize - start)) at
                    (omega (arith, before, whole))
                    (omega (arith, div-le_self start cs, before, small)),
              )
              refl
      ]
