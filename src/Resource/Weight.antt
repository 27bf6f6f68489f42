-- ===== src/Resource/Weight.antt =====
-- python/vsapi.py: the weight by which the allocator orders resources.
use vizstack.Prelude.{
  ℕ, ◌+◌, ◌*◌, true, none, some, length, ◌==◌, nat_eq, bool_eq, option_eq, if◌then◌else◌,
}
use vizstack.Prelude.Int.{ℤ, pos, ◌+ℤ◌, ◌-ℤ◌, sub_ℕ}
use vizstack.Resource.{VizResource, Resource, gpu, server, GpuFields}

-- VizResource.getAllocationWeight
unfoldable pub base_weight : VizResource → ℤ
base_weight r = elim r.res_index [
  | none ↦ r.allocation_bias
  | some index ↦ r.allocation_bias +ℤ pos index
]

-- A hundred for each port that can scan out, and for each connected display.
abbrev pub scanout_weight : GpuFields → ℕ
scanout_weight g =
    if g.use_scan_out == some true
    then (elim g.scanout_caps [ none ↦ 0 | some caps ↦ 100 * length caps ]) + 100 * length g.scanout
    else 0

-- getAllocationWeight of GPU, of Server, and of the classes that inherit it.
unfoldable pub get_allocation_weight : Resource → ℤ
unfolding base_weight
get_allocation_weight r = elim r.class [
  | gpu g ↦
      let total = base_weight r.base +ℤ pos (scanout_weight g) in
      if r.shared then total -ℤ sub_ℕ r.max_share_count (length r.owners) else total
  | server ↦
      let total = base_weight r.base in if r.res_index == some 0 then total +ℤ pos 10000 else total
  | _ ↦ base_weight r.base
]
