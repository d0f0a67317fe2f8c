-- ===== src/Ipc/Shm/Attach.antt =====
-- `ipc_shm_attach` and then `ipc_shm_detach` of kernel2/shm.c.
use mein_os.Prelude.{ℕ, ◌≡◌, ◌≢◌, none, ◌∷◌, bit_and}
use mein_os.Ipc.State.{Shm, Ipc, current_proc}
use mein_os.Ipc.Shm.{take_att, shm_rdonly, set_shm}

-- No object but `q` has an attachment of the process at the address.
abbrev pub Alone : (proc virt q : ℕ) → Ipc → Type 0
Alone proc virt q s = (r : ℕ) → r ≢ q → take_att proc virt (s.shms r).atts ≡ none

-- The state after the process attached to the object at `q`.
abbrev pub attached : (q addr flags time : ℕ) → Ipc → Ipc
attached q addr flags time s =
    set_shm q
      (record (s.shms q) {
        atts =
            record { proc = s.kernel.current; virt = addr; readonly = bit_and flags shm_rdonly }
            ∷ (s.shms q).atts;
        atime = time;
        lopid = (current_proc s).pid;
      })
      s
