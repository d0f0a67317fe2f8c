-- ===== src/Syscall/Tests.antt =====
-- The theorems on the table at an empty table and a process that calls the number 5.
use mein_os.Prelude.{ℕ, List, replicate}
use mein_os.Procm.Sample.{kernel}
use mein_os.Procm.Upcall.{Machine}
use mein_os.Syscall.{Entry}
use mein_os.Syscall.Dispatch.{entry}

abbrev empty_table : List Entry
empty_table = replicate 83 (entry 0 0)

-- Every word of the memory is 5.
abbrev machine : Machine
machine = record { kernel = kernel; memory = λ space addr. 5 }

-- A function that gives its first argument
abbrev give : (func params numparams : ℕ) → Machine → ℕ × Machine
give func params numparams m = (params, m)
