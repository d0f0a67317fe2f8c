-- ===== src/Perm/Bits.antt =====
-- The mode as three digits, for the owner, the group and the others, and what `perm_check` reads
-- of them.
use mein_os.Prelude.{
  ℕ, zero, suc, ◌+◌, ◌≤◌, ◌/◌, ◌%◌, ◌<◌, ◌≡◌, refl, ◌∙◌, ap, Bool, true, false, not, ◌&&◌, ◌||◌,
  bit_and, arith, ◌==◌, if◌then◌else◌, ==_iff, Bool-cases, inl, inr,
}
use mathlib.Core.Path.{subst}
use mein_os.Perm.{perm_r, perm_w, perm_x, rootuid, rootgid, op_mode, check}

-- Whether digit `d` grants the operation: 4 is reading, 2 writing, 1 executing.
abbrev pub grants : (d op : ℕ) → Bool
grants d op =
    if op == perm_r
    then (d / 4) % 2 == 1
    else if op == perm_w
    then (d / 2) % 2 == 1
    else if op == perm_x
    then d % 2 == 1
    else false

abbrev pub user_digit : ℕ → ℕ
user_digit mode = (mode / 64) % 8

abbrev pub group_digit : ℕ → ℕ
group_digit mode = (mode / 8) % 8

abbrev pub other_digit : ℕ → ℕ
other_digit mode = mode % 8

same : Bool → Bool → Bool
same true b = b
same false b = not b

same_eq : (a b : Bool) → same a b ≡ true → a ≡ b
unfolding same
same_eq a b h = ground arith

-- The three tests of the code at one mode and one operation, against the digits.
agree : (mode op : ℕ) → Bool
unfolding same op_mode
agree mode op =
    same (not (bit_and (op_mode mode op) 0o700 == 0)) (grants (user_digit mode) op)
    && same (not (bit_and (op_mode mode op) 0o070 == 0)) (grants (group_digit mode) op)
    && same (not (bit_and (op_mode mode op) 0o007 == 0)) (grants (other_digit mode) op)

and_left : (a b : Bool) → (a && b) ≡ true → a ≡ true
and_left a b h = ground arith

and_right : (a b : Bool) → (a && b) ≡ true → b ≡ true
and_right a b h = ground arith

-- The test holds at each number from `at` on, as many as `count`.
holds_from : (test : ℕ → Bool) (at count : ℕ) → Bool
holds_from test at zero = true
holds_from test at (suc count) = test at && holds_from test (at + 1) count

holds_from-at :
    (test : ℕ → Bool) (at count v : ℕ)
    → holds_from test at count ≡ true
    → at ≤ v
    → v < at + count
    → test v ≡ true
unfolding holds_from
holds_from-at test at zero v all ge lt = absurd (omega arith)
holds_from-at test at (suc count) v all ge lt = elim (Bool-cases (at == v)) [
  | inl e ↦ subst (λ w. test w ≡ true) ((==_iff at v).0 e) (and_left _ _ all)
  | inr e ↦
      holds_from-at test (at + 1) count v (and_right (test at) _ all) (ground arith) (omega arith)
]

table : holds_from (λ op. holds_from (λ mode. agree mode op) 0 512) 0 4 ≡ true
unfolding holds_from agree
table = refl

-- The branches of the code, with its tests as variables.
branches :
    (root user group u g o : Bool)
    → (if root
        then true
        else if user && u
        then true
        else if group && g
        then true
        else if o
        then true
        else false)
      ≡ (root || ((user && u) || ((group && g) || o)))
branches root user group u g o = ground arith

agree_all : (mode op : ℕ) → mode < 512 → op < 4 → agree mode op ≡ true
agree_all mode op hm ho =
    holds_from-at (λ m. agree m op) 0 512 mode
      (holds_from-at (λ p. holds_from (λ m. agree m p) 0 512) 0 4 op table (omega arith) ho)
      (omega arith) hm

-- For an operation below 4 and a mode of nine bits the check succeeds exactly for root, for the owner where
-- the first digit grants the operation, for the group where the second does, and for all where the
-- third does.
pub check-grants :
    (owner_uid owner_gid access_uid access_gid mode op : ℕ)
    → mode < 512
    → op < 4
    → check owner_uid owner_gid access_uid access_gid mode op ≡ (
        (access_uid == rootuid || access_gid == rootgid)
        || ((access_uid == owner_uid && grants (user_digit mode) op)
            || ((access_gid == owner_gid && grants (group_digit mode) op)
                || grants (other_digit mode) op)))
unfolding check agree
check-grants ou og au ag mode op hm ho =
    branches (au == rootuid || ag == rootgid) (au == ou) (ag == og) _ _ _
    ∙ ap (λ b. root || ((au == ou && b) || ((ag == og && g_code) || o_code))) user
    ∙ ap (λ b. root || ((au == ou && grants (user_digit mode) op) || ((ag == og && b) || o_code)))
        group
    ∙ ap
        (λ b.
          root
          || ((au == ou && grants (user_digit mode) op)
              || ((ag == og && grants (group_digit mode) op) || b)))
        other
  where
    root : Bool
    root = au == rootuid || ag == rootgid

    u_code : Bool
    u_code = not (bit_and (op_mode mode op) 0o700 == 0)

    g_code : Bool
    g_code = not (bit_and (op_mode mode op) 0o070 == 0)

    o_code : Bool
    o_code = not (bit_and (op_mode mode op) 0o007 == 0)

    front :
        (same u_code (grants (user_digit mode) op) && same g_code (grants (group_digit mode) op))
        ≡ true
    front = and_left _ (same o_code (grants (other_digit mode) op)) (agree_all mode op hm ho)

    user : u_code ≡ grants (user_digit mode) op
    user = same_eq _ _ (and_left _ (same g_code (grants (group_digit mode) op)) front)

    group : g_code ≡ grants (group_digit mode) op
    group = same_eq _ _ (and_right (same u_code (grants (user_digit mode) op)) _ front)

    other : o_code ≡ grants (other_digit mode) op
    other =
        same_eq _ _
          (and_right _ (same o_code (grants (other_digit mode) op)) (agree_all mode op hm ho))
