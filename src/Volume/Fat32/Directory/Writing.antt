-- ===== src/Volume/Fat32/Directory/Writing.antt =====
-- writeDirectoryEntryToDisk of src/bas/volume/fat32/Fat32Volume_write.cpp, and what it calls to write.
use bas_cpp.Prelude.{
  ℕ, zero, suc, ◌+◌, ◌-◌, ◌*◌, ◌/◌, ◌%◌, ◌^◌, Bool, true, false, ◌||◌, not, List, [], ◌∷◌,
  if◌then◌else◌, ◌==◌, ltb, leb, is_nil, length, get_or, any_byte, Bytes,
}
use bas_cpp.Volume.Fat32.Chain.{allocate_cluster}
use bas_cpp.Volume.Fat32.Dates.{Calendar}
use bas_cpp.Volume.Fat32.Names.{
  create_short_name, split_lfn_chunks, calculate_lfn_checksum, lfn_order, lfn_entry,
}
use bas_cpp.Volume.Fat32.Entry.{Dirent, write_dir_entry}
use bas_cpp.Volume.Fat32.Vol.{
  raised, Act, after, ◌>>=◌, ◌>>◌, pure, raise, ask, on_table, cluster_to_offset, write_at,
  write_or_raise, flush, chain_of,
}
use bas_cpp.Volume.Fat32.Directory.{scan_start, scan_clusters, place}

zero_bytes : ℕ → Bytes
zero_bytes zero = []
zero_bytes (suc n) = 0 ∷ zero_bytes n

-- The loop that appends clusters.
extend_chain : ℕ → ℕ → Act (Unit {0})
extend_chain zero prev = pure tt
extend_chain (suc n) prev =
    let rest : ℕ → Act (Unit {0}) = λ cluster. extend_chain n cluster in
    do
      cluster ← on_table (allocate_cluster prev)
      if cluster == 0 then raise else do
        offset ← cluster_to_offset cluster
        v ← ask
        write_or_raise offset (zero_bytes v.cluster_size)
        rest cluster

-- expandDirectoryIfNeeded; the write of the zeros is not checked.
pub expand_directory_if_needed : ℕ → Act (Unit {0})
expand_directory_if_needed dir_cluster = do
  chain ← chain_of dir_cluster
  if not (is_nil chain) then pure tt else do
    cluster ← on_table (allocate_cluster 0)
    if cluster == 0 then raise else do
      offset ← cluster_to_offset cluster
      v ← ask
      written ← write_at offset (zero_bytes v.cluster_size)
      pure tt

-- The place of a byte of the directory on the device: `chain[offset / m_clusterSize]`.
place_of : List ℕ → ℕ → Act ℕ
place_of chain offset = λ v.
    let index = (offset / v.cluster_size) % 2 ^ 32 in
    if leb (length chain) index
    then raised v
    else after (cluster_to_offset (get_or chain index 0) v)
        (λ start. pure (start + (offset % v.cluster_size) % 2 ^ 32))

-- The loop of writeLFNEntries from the `i`-th chunk on; the writes are not checked.
write_chunks : List ℕ → ℕ → ℕ → ℕ → ℕ → List Bytes → Act (Unit {0})
write_chunks chain slot_offset checksum n i [] = pure tt
write_chunks chain slot_offset checksum n i (chunk ∷ chunks) =
    let rest = write_chunks chain slot_offset checksum n (i + 1) chunks in
    do
      offset ← place_of chain ((slot_offset + (n - i - 1) * 32) % 2 ^ 32)
      written ← write_at offset (lfn_entry (lfn_order i) checksum chunk)
      rest

-- writeLFNEntries
pub write_lfn_entries : ℕ → ℕ → Bytes → ℕ → Act (Unit {0})
write_lfn_entries dir_cluster slot_offset long_name checksum =
    let chunks = split_lfn_chunks long_name in
    do
      chain ← chain_of dir_cluster
      write_chunks chain slot_offset checksum (length chunks) 0 chunks

-- `needsLFN`
pub needs_lfn : Bytes → Bool
needs_lfn name = ltb 12 (length name) || any_byte (λ c. c == b'.') name

last_of : List ℕ → ℕ
last_of [] = 0
last_of (c ∷ []) = c
last_of (c ∷ d ∷ cs) = last_of (d ∷ cs)

-- Where the slots go, with clusters appended where they do not fit.
make_room : ℕ → List ℕ → ℕ × Bool → Act ℕ
make_room required chain (start, true) = pure start
make_room required chain (start, false) = do
  v ← ask
  let per_cluster = v.cluster_size / 32 in
      let missing = required - (length chain * per_cluster - start) in
      if missing == 0 then pure start else do
        extend_chain ((missing + per_cluster - 1) / per_cluster) (last_of chain)
        flush
        pure start

-- writeDirectoryEntryToDisk, for a file name that is not empty in a directory that was found, whose first
-- cluster is given.
pub write_directory_entry : Calendar → ℕ → Bytes → Dirent → Act (Unit {0})
write_directory_entry cal parent_cluster file_name d =
    let lfn_count = if needs_lfn file_name then (length file_name + 12) / 13 else 0 in
    let required = lfn_count + 1 in
    let short_name = create_short_name file_name in
    do
      v ← ask
      if not (v.cluster_size % 32 == 0) then raise else do
        expand_directory_if_needed parent_cluster
        chain ← chain_of parent_cluster
        if is_nil chain then raise else do
          scan ← scan_clusters required scan_start chain
          start ←
              make_room required chain (place required scan (length chain * (v.cluster_size / 32)))
          after_chain ← chain_of parent_cluster
          write_names parent_cluster (start * 32) file_name
          offset ← place_of after_chain (start * 32 + lfn_count * 32)
          write_or_raise offset (write_dir_entry cal short_name d)
  where
    write_names : ℕ → ℕ → Bytes → Act (Unit {0})
    write_names parent_cluster insert_at file_name =
        if needs_lfn file_name
        then write_lfn_entries parent_cluster (insert_at % 2 ^ 32) file_name
            (calculate_lfn_checksum (create_short_name file_name))
        else pure tt
