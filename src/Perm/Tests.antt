-- ===== src/Perm/Tests.antt =====
-- The permission check at an input: a reader in the group of a file of mode 0640.
use mein_os.Prelude.{◌≡◌, refl, true, false, ◌&&◌, ◌||◌, arith, ◌==◌}
use mein_os.Perm.{rootuid, rootgid, check}
use mein_os.Perm.Bits.{grants, user_digit, group_digit, other_digit, check-grants}

check-grants_example : check 7 8 9 8 0o640 1 ≡ (
    (9 == rootuid || 8 == rootgid)
    || ((9 == 7 && grants (user_digit 0o640) 1)
        || ((8 == 8 && grants (group_digit 0o640) 1) || grants (other_digit 0o640) 1)))
check-grants_example = check-grants 7 8 9 8 0o640 1 (omega arith) (omega arith)

group_may_read : check 7 8 9 8 0o640 1 ≡ true
unfolding check
group_may_read = refl

group_may_not_write : check 7 8 9 8 0o640 2 ≡ false
unfolding check
group_may_not_write = refl
