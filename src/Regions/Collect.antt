-- ===== src/Regions/Collect.antt =====
-- The stored table against the boot loader's memory map.
use r_os.Common.{
  ℕ, zero, suc, ◌+◌, ◌≤◌, ◌<◌, min, ◌≡◌, refl, sym, ap, ◌∙◌, subst, true, false, List, [], ◌∷◌,
  ◌++◌, map, append-nil, append_assoc, arith, ltb, leb, length, set, take, drop, length-append,
  length-set, take-set,
}
use r_os.Common.Loops.{Returns, Returns->>=}
use r_os.Frames.{MemoryRegion}
use r_os.Regions.{
  MemRegionInfo, Table, no_regions, max_regions, add, info_of, collect, heap_info, add_heap,
  set_memory_regions, collect_regions,
}

-- The entries of a table that count.
abbrev pub entries : Table → List MemRegionInfo
entries t = take t.count t.regions

-- A table of 32 entries that holds a list.
pub record Holding (infos : List MemRegionInfo) (t : Table) : Type 0 where
  pub size : length t.regions ≡ max_regions
  pub number : t.count ≡ length infos
  pub listed : entries t ≡ infos

add-Holding :
    (info : MemRegionInfo) (infos : List MemRegionInfo) (t : Table)
    → Holding infos t
    → length infos < max_regions
    → Returns (Holding (infos ++ (info ∷ []))) (add info t)
unfolding add
add-Holding info infos t h room =
    let fits : ltb t.count (length t.regions) ≡ true = ground (arith, h.size, h.number) in
    let one_more : t.count + 1 ≡ suc t.count = omega arith in
    rw fits (record {
      size = length-set t.regions t.count info ∙ h.size;
      number = omega (arith, h.number, length-append infos (info ∷ []));
      listed =
          ap (λ n. take n (set t.regions t.count info)) one_more
          ∙ take-set t.regions t.count info (omega (arith, h.size, h.number))
          ∙ ap (λ l. l ++ (info ∷ [])) h.listed;
    })

same_list : (infos : List MemRegionInfo) (t : Table) → Holding infos t → Holding (infos ++ []) t
same_list infos t h = rw (append-nil infos) h

collect-Holding :
    (n : ℕ) (regions : List MemoryRegion) (infos : List MemRegionInfo) (t : Table)
    → Holding infos t
    → length infos + n ≡ 30
    → Returns (Holding (infos ++ map info_of (take n regions))) (collect regions t)
unfolding collect
collect-Holding zero [] infos t h e = same_list infos t h
collect-Holding (suc n) [] infos t h e = same_list infos t h
collect-Holding zero (region ∷ rest) infos t h e =
    let full : leb 30 t.count ≡ true = ground (arith, h.number) in
    rw (full, collect) (same_list infos t h)
collect-Holding (suc n) (region ∷ rest) infos t h e =
    let info : MemRegionInfo = info_of region in
    let room : leb 30 t.count ≡ false = ground (arith, h.number) in
    rw (room, collect)
      (Returns->>= (Holding (infos ++ (info ∷ []))) _ (add info t) (λ t'. collect rest t')
        (add-Holding info infos t h (omega arith))
        (λ t' h'.
          subst (λ l. Returns (Holding l) (collect rest t'))
            (append_assoc infos (info ∷ []) (map info_of (take n rest)))
            (collect-Holding n rest (infos ++ (info ∷ [])) t' h'
              (omega (arith, length-append infos (info ∷ []))))))

length-map-take : (n : ℕ) (regions : List MemoryRegion) → length (map info_of (take n regions)) ≤ n
length-map-take zero regions = omega arith
length-map-take (suc n) [] = omega arith
length-map-take (suc n) (r ∷ rs) = omega (arith, length-map-take n rs)

take-all :
    (infos rest : List MemRegionInfo) (n : ℕ) → n ≡ length infos → take n (infos ++ rest) ≡ infos
take-all [] rest zero e = refl
take-all [] rest (suc n) e = absurd (omega arith)
take-all (x ∷ xs) rest zero e = absurd (omega arith)
take-all (x ∷ xs) rest (suc n) e = ap (λ l. x ∷ l) (take-all xs rest n (omega arith))

take_self : (infos : List MemRegionInfo) (n : ℕ) → n ≡ length infos → take n infos ≡ infos
take_self infos n e = ap (take n) (sym (append-nil infos)) ∙ take-all infos [] n e

-- However long the boot loader's memory map is, the collection does not panic, and the entries
-- that it stores are the first 30 regions of the map, in order and with their kinds, and then the
-- heap.
pub collect_regions-entries :
    (regions : List MemoryRegion) (stored : Table)
    → Returns
        (λ t. entries t ≡ map info_of (take 30 regions) ++ (heap_info ∷ []))
        (collect_regions regions stored)
unfolding collect_regions add_heap set_memory_regions
collect_regions-entries regions stored =
    let infos : List MemRegionInfo = map info_of (take 30 regions) in
    let few : length infos ≤ 30 = length-map-take 30 regions in
    Returns->>= (Holding infos) _ (collect regions no_regions) _
      (collect-Holding 30 regions [] no_regions
        (record { size = refl; number = refl; listed = refl }) refl)
      (λ t h.
        let room : ltb t.count 32 ≡ true = ground (arith, h.number, length-map-take 30 regions) in
        rw room (
          Returns->>= (Holding (infos ++ (heap_info ∷ []))) _ (add heap_info t) _
            (add-Holding heap_info infos t h (omega (arith, length-map-take 30 regions)))
            (λ t' h'.
              stored_all (infos ++ (heap_info ∷ [])) t' h'
                (omega (arith, length-append infos (heap_info ∷ []), length-map-take 30 regions)))))
  where
    stored_all :
        (infos : List MemRegionInfo) (t : Table)
        → Holding infos t
        → length infos ≤ 32
        → entries (set_memory_regions (entries t) stored) ≡ infos
    stored_all infos t h few =
        let whole : min (length infos) max_regions ≡ length infos = omega arith in
        rw (h.listed, whole, take_self infos (length infos) refl)
          (take-all infos (drop (length infos) stored.regions) (length infos) refl)
