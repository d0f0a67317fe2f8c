-- ===== src/Ipc/Shm.antt =====
-- kernel2/shm.c: shared memory. Each call returns its result beside the new state, and the calls of
-- `paging_map` and `paging_unmap` that it makes, in their order.
pub mod Attach
use mein_os.Prelude.{
  ℕ, zero, suc, ◌+◌, ◌-◌, ◌*◌, ◌/◌, ◌%◌, ◌^◌, Bool, true, false, ◌&&◌, ◌||◌, not, bit_and, Option,
  none, some, List, [], ◌∷◌, ◌++◌, ltb, leb, ◌==◌, if◌then◌else◌, length, take,
}
use mein_os.Llist.Seq
use mein_os.Perm
use mein_os.Procm.State.{Proc, Kernel}
use mein_os.Ipc.Registry.{find}
use mein_os.Ipc.State.{
  ipc_private, ipc_shm, minus_one, eacces, eexist, einval, enospc, int_add, IpcObj, Att, Shm, Ipc,
  put, current_proc,
}

-- `ipc_shm_find`
abbrev pub shm_find : (key id : ℕ) → Ipc → ℕ
shm_find key id s = find key id ipc_shm s

-- `ipc_shm_permcheck`: the owner's process number stands in the place of its user.
unfoldable pub permcheck : (q op : ℕ) → Ipc → Bool
permcheck q op s =
    Perm.check owner.pid owner.gid (current_proc s).uid (current_proc s).gid (s.headers q).mode op
    || (current_proc s).uid == creator.uid
  where
    owner : Proc
    owner = s.kernel.procs (s.headers q).owner

    creator : Proc
    creator = s.kernel.procs (s.headers q).creator

-- `ipc_shm_get`
unfoldable pub get : (key : ℕ) → Ipc → ℕ
get key s =
    if shm_find key minus_one s == 0 then einval else (s.headers (shm_find key minus_one s)).id

-- `PAGE_SIZE`, `PAGEUP` and `ADDR2PAGE`
abbrev pub page_size : ℕ
page_size = 4096

abbrev pub page_up : ℕ → ℕ
page_up a = ((a + 2 ^ 32 - 1) % 2 ^ 32 / page_size + 1) * page_size % 2 ^ 32

abbrev pub pages_of : (size : ℕ) → ℕ
pages_of size = page_up size / page_size

-- `frames` are the pages that `memphys_alloc` gives, one after the other.
abbrev pub created : (fresh key size flags : ℕ) (frames : List ℕ) → Ipc → Ipc
created fresh key size flags frames s = record s {
  lastid = int_add s.lastid 1;
  objects = fresh ∷ s.objects;
  headers = put s.headers fresh (record {
    kind = ipc_shm;
    id = s.lastid;
    key = key;
    owner = s.kernel.current;
    creator = s.kernel.current;
    mode = bit_and flags 0o777;
  });
  shms = put s.shms fresh (record {
    size = size;
    num_pages = pages_of size;
    phys = take (pages_of size) frames;
    atts = [];
    lopid = (current_proc s).pid;
    atime = 0;
    dtime = 0;
    ctime = 0;
  });
}

-- `ipc_shm_create`. The time is not used.
unfoldable pub create : (fresh key size flags time : ℕ) (frames : List ℕ) → Ipc → ℕ × Ipc
create fresh key size flags time frames s =
    let old = if key == ipc_private then 0 else shm_find key minus_one s in
    if old == 0
    then if fresh == 0 then (enospc, s) else (s.lastid, created fresh key size flags frames s)
    else (eexist, s)

-- A call of `paging_map(virt,phys,1,writable)`, or of `paging_unmap(virt)`.
pub data PageCall : Type 0 where
  map : (virt phys : ℕ) (writable : Bool) → PageCall
  unmap : (virt : ℕ) → PageCall

-- The loop over the pages of an object, from the address `virt` on.
unfoldable pub map_pages : (virt : ℕ) (phys : List ℕ) (writable : Bool) → List PageCall
map_pages virt [] writable = []
map_pages virt (f ∷ fs) writable = map virt f writable ∷ map_pages (virt + page_size) fs writable

unfoldable pub unmap_pages : (virt count : ℕ) → List PageCall
unmap_pages virt zero = []
unmap_pages virt (suc count) = unmap virt ∷ unmap_pages (virt + page_size) count

-- `USERDATA_ADDRESS` and `SHM_RDONLY`
abbrev pub userdata_address : ℕ
userdata_address = 2 ^ 30

abbrev pub shm_rdonly : ℕ
shm_rdonly = 0x16000

-- The state with `x` as the object at `q`.
abbrev pub set_shm : ℕ → Shm → Ipc → Ipc
set_shm q x s = record s { shms = put s.shms q x }

-- `ipc_shm_attach`: the result, the address that it writes to `*addr`, the calls and the state.
-- `findvirt` is `memuser_findvirt`, and `fresh` the attachment from `malloc`.
unfoldable pub attach :
    (findvirt : (space pages : ℕ) → ℕ) (fresh id addr flags time : ℕ)
    → Ipc
    → ℕ × ℕ × List PageCall × Ipc
unfolding map_pages
attach findvirt fresh id addr flags time s =
    let q = shm_find minus_one id s in
    let x = s.shms q in
    let virt = if addr == 0 then findvirt (current_proc s).addrspace x.num_pages else addr in
    let readonly = bit_and flags shm_rdonly in
    if (leb userdata_address addr || addr == 0) && not (q == 0)
    then (if fresh == 0 then (enospc, addr, [], s) else (
      0,
      virt,
      map_pages virt (take x.num_pages x.phys) (readonly == 0),
      set_shm q
          (record x {
            atts = record { proc = s.kernel.current; virt = virt; readonly = readonly } ∷ x.atts;
            atime = time;
            lopid = (current_proc s).pid;
          })
          s,
    ))
    else (einval, addr, [], s)

-- The first attachment of the process at the address, and the list without it.
unfoldable pub take_att : (proc virt : ℕ) → List Att → Option (List Att)
take_att proc virt [] = none
take_att proc virt (a ∷ as') =
    let rest = take_att proc virt as' in
    if a.proc == proc && a.virt == virt
    then some as'
    else elim rest [ none ↦ none | some l ↦ some (a ∷ l) ]

-- The loop of `ipc_shm_detach` over the objects: the one that had the attachment, with what it has
-- left.
unfoldable pub find_att : (proc virt : ℕ) → List ℕ → Ipc → Option (ℕ × List Att)
unfolding take_att
find_att proc virt [] s = none
find_att proc virt (q ∷ qs) s =
    let rest = find_att proc virt qs s in
    if q == 0
    then none
    else if (s.headers q).kind == ipc_shm
    then elim (take_att proc virt (s.shms q).atts) [ none ↦ rest | some l ↦ some (q, l) ]
    else rest

-- `ipc_shm_detach`
unfoldable pub detach : (virt time : ℕ) → Ipc → ℕ × List PageCall × Ipc
unfolding find_att unmap_pages
detach virt time s =
    if ltb virt userdata_address
    then (minus_one, [], s)
    else elim (find_att s.kernel.current virt s.objects s) [
      | none ↦ (einval, [], s)
      | some (q, l) ↦ (
        0,
        unmap_pages virt (s.shms q).num_pages,
        set_shm q (record (s.shms q) { atts = l; atime = time; lopid = (current_proc s).pid }) s,
      )
    ]

-- What `ipc_shm_stat` writes through its references.
pub record ShmStat : Type 0 where
  pub uid : ℕ
  pub gid : ℕ
  pub cuid : ℕ
  pub cgid : ℕ
  pub cpid : ℕ
  pub mode : ℕ
  pub segsz : ℕ
  pub lpid : ℕ
  pub nattch : ℕ
  pub atime : ℕ
  pub dtime : ℕ
  pub ctime : ℕ

-- `ipc_shm_stat`
unfoldable pub stat : (id : ℕ) → Ipc → ℕ × Option ShmStat
stat id s =
    let q = shm_find minus_one id s in
    let o = s.headers q in
    let x = s.shms q in
    if q == 0
    then (einval, none)
    else if permcheck q Perm.perm_r s
    then (
      0,
      some (record {
        uid = (s.kernel.procs o.owner).uid;
        gid = (s.kernel.procs o.owner).gid;
        cuid = (s.kernel.procs o.creator).uid;
        cgid = (s.kernel.procs o.creator).gid;
        cpid = (s.kernel.procs o.creator).pid;
        mode = o.mode;
        segsz = x.size;
        lpid = x.lopid;
        nattch = length x.atts;
        atime = x.atime;
        dtime = x.dtime;
        ctime = x.ctime;
      }),
    )
    else (eacces, none)

-- `ipc_shm_set`: the owner's identifiers are not used.
unfoldable pub set : (id uid gid mode time : ℕ) → Ipc → ℕ × Ipc
set id uid gid mode time s =
    let q = shm_find minus_one id s in
    if q == 0
    then (einval, s)
    else if permcheck q Perm.perm_w s
    then (
      0,
      record s {
        headers = put s.headers q (record (s.headers q) { mode = mode });
        shms = put s.shms q (record (s.shms q) { ctime = time });
      },
    )
    else (eacces, s)

-- The loop of `ipc_shm_destroy` over the attachments.
unfoldable pub unmap_atts : (count : ℕ) → List Att → List PageCall
unfolding unmap_pages
unmap_atts count [] = []
unmap_atts count (a ∷ as') = unmap_pages a.virt count ++ unmap_atts count as'

-- `ipc_shm_destroy`: the result, the calls, the pages that are given to `memphys_free`, and the state.
-- It asks for no permission.
unfoldable pub destroy : (id : ℕ) → Ipc → ℕ × List PageCall × List ℕ × Ipc
unfolding unmap_atts
destroy id s =
    let q = shm_find minus_one id s in
    let x = s.shms q in
    if q == 0 then (minus_one, [], [], s) else (
      0,
      unmap_atts x.num_pages x.atts,
      take x.num_pages x.phys,
      record s { objects = Seq.erase s.objects q },
    )
