-- ===== src/Heap.antt =====
-- The kernel heap of kernel/kheap.c over an explicit memory: blocks with a header and a trailer
-- from `heap_start_vaddr` on, and the list that the headers' `next_free_block` fields make.
-- The memory gives the 32-bit word at each address; the code's accesses are aligned to 4 bytes.
pub mod Best
pub mod Tiling
pub mod Init
pub mod Fresh
pub mod Print
pub mod Split
pub mod Kmalloc
pub mod Contract
pub mod Free
pub mod Linked
pub mod Kfree
pub mod Coalesce
pub mod Sliver
mod Tests
use rotary_os.Base.{
  ℕ, zero, suc, ◌+◌, ◌-◌, ◌*◌, ◌^◌, bit_and, Bool, true, false, not, ◌&&◌, ◌||◌, Option, none, some,
  ltb, leb, ◌==◌, if◌then◌else◌, add32, sub32, not32, update,
}

abbrev pub Mem : Type 0
Mem = ℕ → ℕ

abbrev pub heap_max_size : ℕ
heap_max_size = 65536 * 16

abbrev pub block_free : ℕ
block_free = 0

abbrev pub block_used : ℕ
block_used = 1

-- `sizeof(block_header)` and `sizeof(block_trailer)`
abbrev pub header_size : ℕ
header_size = 16

abbrev pub trailer_size : ℕ
trailer_size = 8

-- The fields of the header at `h`: `size` stands at `h` itself.
abbrev pub used_at : ℕ → ℕ
used_at h = add32 h 4

abbrev pub prev_at : ℕ → ℕ
prev_at h = add32 h 8

abbrev pub next_at : ℕ → ℕ
next_at h = add32 h 12

-- The globals `heap_start_vaddr` and `heap_end_vaddr` with the memory.
pub record Heap : Type 0 where
  pub mem : Mem
  pub start_vaddr : ℕ
  pub end_vaddr : ℕ

-- `memset(dest, 0, len)` over whole words
unfoldable pub memset_zero : Mem → ℕ → ℕ → Mem
memset_zero m dest len a = if leb dest a && ltb a (dest + len) then 0 else m a

-- `ROUND_UP_4`
unfoldable pub round_up_4 : ℕ → ℕ
round_up_4 x = bit_and (add32 x 3) (not32 3)

-- The writes of a header's size and flag and of the trailer that they lead to.
unfoldable pub heap_update_block : Mem → (addr size used : ℕ) → Mem
heap_update_block m addr size used =
    let m₁ = update m addr size in
    let m₂ = update m₁ (used_at addr) used in
    let trailer = add32 (add32 addr header_size) (m₂ addr) in
    let m₃ = update m₂ trailer size in update m₃ (add32 trailer 4) used

unfoldable pub heap_remove_free_block : Mem → ℕ → Mem
heap_remove_free_block m header =
    let m₁ =
      if m (prev_at header) == 0
      then m
      else update m (next_at (m (prev_at header))) (m (next_at header)) in
    if m₁ (next_at header) == 0
    then m₁
    else update m₁ (prev_at (m₁ (next_at header))) (m₁ (prev_at header))

unfoldable pub heap_create_new_block :
    Mem → (addr size used prev_free_block next_free_block : ℕ) → Mem
heap_create_new_block m addr size used prev_free_block next_free_block =
    let m₁ = update m addr size in
    let m₂ = update m₁ (used_at addr) used in
    let m₃ = update m₂ (prev_at addr) prev_free_block in
    let m₄ = update m₃ (next_at addr) next_free_block in
    let trailer = add32 (add32 addr header_size) (m₄ addr) in
    let m₅ = update m₄ trailer size in update m₅ (add32 trailer 4) used

-- `heap_init`, which also says where the heap stands
pub heap_init : Mem → ℕ → Mem
heap_init m start =
    let m₁ = memset_zero m start (heap_max_size + header_size + trailer_size) in
    let m₂ = update m₁ start heap_max_size in
    let m₃ = update m₂ (used_at start) 0 in
    let m₄ = update m₃ (prev_at start) 0 in
    let m₅ = update m₄ (next_at start) 0 in
    let trailer = add32 (add32 start header_size) (m₅ start) in
    let m₆ = update m₅ trailer heap_max_size in update m₆ (add32 trailer 4) 0

-- The first half of `heap_coalesce_free_block`: the merge with the block behind. All four pointers
-- are computed before any write.
unfoldable pub coalesce_next : Mem → (free_block next_header next_trailer : ℕ) → Mem
coalesce_next m free_block next_header next_trailer =
    if not (m next_header == 0) && (m (used_at next_header) == block_free)
    then (let new_size =
          add32 (add32 (add32 (m free_block) trailer_size) header_size) (m next_header) in
        let m₁ = update m (next_at free_block) (m (next_at next_header)) in
        let m₂ = update m₁ free_block new_size in
        let m₃ = update m₂ next_trailer new_size in update m₃ (used_at next_trailer) block_free)
    else m

-- The second half: the merge with the block in front.
unfoldable pub coalesce_prev : Mem → (free_block prev_header next_trailer : ℕ) → Mem
coalesce_prev m free_block prev_header next_trailer =
    if not (m prev_header == 0) && (m (used_at prev_header) == block_free)
    then (let new_size =
          add32 (add32 (add32 (m prev_header) trailer_size) header_size) (m free_block) in
        let m₁ = update m prev_header new_size in
        let m₂ = update m₁ (next_at prev_header) (m₁ (next_at free_block)) in
        let m₃ = update m₂ next_trailer new_size in update m₃ (used_at next_trailer) block_free)
    else m

unfoldable pub heap_coalesce_free_block : Mem → ℕ → Mem
heap_coalesce_free_block m free_block =
    let prev_trailer = sub32 free_block trailer_size in
    let prev_header = sub32 (sub32 prev_trailer (m prev_trailer)) header_size in
    let next_header = add32 (add32 (add32 free_block header_size) (m free_block)) trailer_size in
    let next_trailer = add32 (add32 next_header header_size) (m next_header) in
    coalesce_prev (coalesce_next m free_block next_header next_trailer) free_block prev_header
      next_trailer

-- One round of the search: the best block so far (0 for none) after `current`.
unfoldable pub better : Mem → (size current best : ℕ) → ℕ
better m size current best =
    if m (used_at current) == 0
    then (if best == 0
        then (if leb size (m current) then current else best)
        else (if leb size (m current) && ltb (m current) (m best) then current else best))
    else best

-- `while(current_block)`; `none` when the fuel ends
unfoldable pub search : (fuel : ℕ) → Mem → (size current best : ℕ) → Option ℕ
search zero m size current best = none
search (suc k) m size current best =
    let rest = search k m size (m (next_at current)) (better m size current best) in
    if current == 0 then some best else rest

-- The part of `kmalloc` behind the search: the pointer and the memory.
unfoldable pub allocate_in : Mem → (size best : ℕ) → ℕ × Mem
allocate_in m size best =
    if best == 0
    then (0, m)
    else if m best == size
    then (
      add32 best header_size,
      heap_remove_free_block (heap_update_block m best size block_used) best,
    )
    else if ltb size (m best)
    then (let new_block_addr =
          sub32 (sub32 (add32 (add32 best header_size) (m best)) header_size) size in
        let old_block_size = sub32 (sub32 (sub32 (m best) header_size) size) trailer_size in
        let m₁ = heap_update_block m best old_block_size block_free in
        (
          add32 new_block_addr header_size,
          heap_create_new_block m₁ new_block_addr size block_used best (m₁ (next_at best)),
        ))
    else (0, m)

-- `none` when the search's fuel ends
unfoldable pub kmalloc : (fuel : ℕ) → Heap → ℕ → Option (ℕ × Heap)
kmalloc fuel s size =
    if size == 0 then some (0, s) else elim (search fuel s.mem (round_up_4 size) s.start_vaddr 0) [
      | none ↦ none
      | some best ↦ some (
        (allocate_in s.mem (round_up_4 size) best).0,
        record s { mem = (allocate_in s.mem (round_up_4 size) best).1 },
      )
    ]

-- The writes that put a freed block behind `last_free_block` in the list.
unfoldable pub link_free : Mem → (current last_free_block : ℕ) → Mem
link_free m current last_free_block =
    let m₁ = update m (next_at current) (m (next_at last_free_block)) in
    let m₂ = update m₁ (prev_at current) last_free_block in
    update m₂ (next_at last_free_block) current

-- The walk of `kfree` over all blocks; `none` when the fuel ends.
unfoldable pub free_walk : (fuel : ℕ) → Mem → (to_free current last_free_block : ℕ) → Option Mem
free_walk zero m to_free current last_free_block = none
free_walk (suc k) m to_free current last_free_block =
    let behind = add32 (add32 (add32 current header_size) (m current)) trailer_size in
    let last' =
      if (m (used_at current) == 0) && not (current == to_free) then current else last_free_block in
    let rest = free_walk k m to_free behind last' in
    if m current == 0
    then some m
    else if current == to_free
    then some (heap_coalesce_free_block (link_free m current last_free_block) current)
    else rest

-- The memory after `kfree` has cleared the block and marked it free.
unfoldable pub mark_free : Mem → ℕ → Mem
mark_free m ptr =
    let to_free = sub32 ptr header_size in
    let trailer = add32 (add32 to_free header_size) (m to_free) in
    let m₁ = memset_zero m ptr (m to_free) in
    let m₂ = update m₁ (used_at to_free) 0 in update m₂ (used_at trailer) 0

-- The result, 1 or 0, and the heap; `none` when the walk's fuel ends.
unfoldable pub kfree : (fuel : ℕ) → Heap → ℕ → Option (ℕ × Heap)
kfree fuel s ptr =
    if ptr == 0
    then some (0, s)
    else if ltb ptr s.start_vaddr || ltb s.end_vaddr ptr
    then some (0, s)
    else elim (free_walk fuel (mark_free s.mem ptr) (sub32 ptr header_size) s.start_vaddr
        s.start_vaddr) [ none ↦ none | some m ↦ some (1, record s { mem = m }) ]
