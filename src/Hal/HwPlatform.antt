-- ===== src/Hal/HwPlatform.antt =====
-- src/bsp/platform/linux/hw_platform.c: the mappings of the six register regions, shared by
-- reference count. What open and mmap return are parameters: `opened` whether /dev/mem opens, and
-- `mapped` the address of each region's mapping, if it succeeds.
pub mod Owners
use subtitle_overlay_fw.Base.{
  ℕ, zero, suc, ◌+◌, ◌-◌, ◌%◌, ◌^◌, Bool, true, false, Option, none, some, List, [], ◌∷◌, ◌==◌,
  if◌then◌else◌, ltb, get_or, set, replicate, leb, ◌&&◌, not,
}

-- HW_REGION_OVERLAY, HW_REGION_SUBTITLE_BRAM and HW_REGION_COUNT
abbrev pub region_overlay : ℕ
region_overlay = 3

abbrev pub region_subtitle_bram : ℕ
region_subtitle_bram = 4

abbrev pub region_count : ℕ
region_count = 6

-- refcount, whether devmem_fd is open, and the virtual_base of each mapping, 0 for NULL
pub record Platform : Type 0 where
  pub refcount : ℕ
  pub devmem_open : Bool
  pub bases : List ℕ

-- The static initial values
abbrev pub at_start : Platform
at_start = record { refcount = 0; devmem_open = false; bases = replicate region_count 0 }

unfoldable pub unmap_all : Platform → Platform
unmap_all p = record p { devmem_open = false; bases = replicate region_count 0 }

-- The loop that maps region after region, with `n` to go; `none` where one fails or is
-- mapped at address 0.
unfoldable pub map_regions : (ℕ → Option ℕ) → ℕ → ℕ → Platform → Option Platform
map_regions mapped region zero p = some p
map_regions mapped region (suc n) p = elim (mapped region) [
  | none ↦ none
  | some virtual_base ↦
      let rest =
        map_regions mapped (region + 1) n (record p { bases = set p.bases region virtual_base }) in
      if virtual_base == 0 then none else rest
]

-- Whether it returns 0
unfoldable pub hw_platform_init : Bool → (ℕ → Option ℕ) → Platform → Bool × Platform
hw_platform_init opened mapped p =
    if ltb 0 p.refcount
    then (true, record p { refcount = (p.refcount + 1) % 2 ^ 32 })
    else if opened
    then elim (map_regions mapped 0 region_count (record p { devmem_open = true })) [
      | none ↦ (false, unmap_all p)
      | some q ↦ (true, record q { refcount = 1 })
    ]
    else (false, record p { devmem_open = false })

unfoldable pub hw_platform_cleanup : Platform → Platform
hw_platform_cleanup p =
    if p.refcount == 0
    then p
    else if p.refcount - 1 == 0
    then unmap_all (record p { refcount = 0 })
    else record p { refcount = p.refcount - 1 }

unfoldable pub hw_platform_base : ℕ → Platform → ℕ
hw_platform_base region p = get_or p.bases region 0

-- hw_platform_translate, for the physical address and size of each region from `region` on
unfoldable pub hw_platform_translate : List (ℕ × ℕ) → ℕ → Platform → ℕ → ℕ
hw_platform_translate [] region p physical_address = 0
hw_platform_translate ((physical_base, size) ∷ mappings) region p physical_address =
    let next = hw_platform_translate mappings (region + 1) p physical_address in
    let offset = physical_address - physical_base in
    let virtual_base = get_or p.bases region 0 in
    if leb physical_base physical_address && (ltb offset size && not (virtual_base == 0))
    then virtual_base + offset
    else next
