-- ===== src/Protocol/Ids.antt =====
-- `Ids` of protocol/src/lib.rs: a counter of fresh ids, which wraps at the width of `usize`.
use nak.Base.{ℕ, ◌+◌, ◌%◌, ◌^◌}

abbrev pub usize_mod : ℕ
usize_mod = 2 ^ 64

pub record Ids : Type 0 where
  pub next_id : ℕ

abbrev pub new : Ids
new = record { next_id = 0 }

unfoldable pub next : Ids → ℕ × Ids
next ids = (ids.next_id, record { next_id = (ids.next_id + 1) % usize_mod })
