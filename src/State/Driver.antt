-- ===== src/State/Driver.antt =====
-- What database/sql and the SQLite driver may do to one call of a store method: at each point
-- where the method tests an error of theirs, numbered in the order of the method's text, the
-- driver reports one or it does not. A statement that reports an error has changed nothing.
use tempogate.Common.{ℕ, ◌≡◌, Bool, false}

abbrev pub Driver : Type 0
Driver = ℕ → Bool

-- A driver that answers every statement.
abbrev pub IsUp : Driver → Type 0
IsUp db = (n : ℕ) → db n ≡ false

abbrev pub up : Driver
up n = false
