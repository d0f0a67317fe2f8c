-- ===== src/Perm.antt =====
-- lib/libmeinos/perm.c: the check of an access against owner, group and mode bits.
pub mod Bits
mod Tests
use mein_os.Prelude.{ℕ, Bool, true, false, not, ◌&&◌, ◌||◌, bit_and, ◌==◌, if◌then◌else◌}

-- `PERM_R`, `PERM_W` and `PERM_X`
abbrev pub perm_r : ℕ
perm_r = 1

abbrev pub perm_w : ℕ
perm_w = 2

abbrev pub perm_x : ℕ
perm_x = 3

-- `PERM_ROOTUID` and `PERM_ROOTGID`
abbrev pub rootuid : ℕ
rootuid = 1

abbrev pub rootgid : ℕ
rootgid = 1

-- `opmode`: the bits of the mode that speak of the operation
unfoldable pub op_mode : (mode op : ℕ) → ℕ
op_mode mode op =
    if op == perm_r
    then bit_and mode 0o444
    else if op == perm_w
    then bit_and mode 0o222
    else if op == perm_x
    then bit_and mode 0o111
    else 0

unfoldable pub check : (owner_uid owner_gid access_uid access_gid mode op : ℕ) → Bool
unfolding op_mode
check owner_uid owner_gid access_uid access_gid mode op =
    let opmode = op_mode mode op in
    if access_uid == rootuid || access_gid == rootgid
    then true
    else if access_uid == owner_uid && not (bit_and opmode 0o700 == 0)
    then true
    else if access_gid == owner_gid && not (bit_and opmode 0o070 == 0)
    then true
    else if not (bit_and opmode 0o007 == 0)
    then true
    else false
