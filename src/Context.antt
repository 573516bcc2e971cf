-- ===== src/Context.antt =====
-- The cancellation context of an operation and `checkContext` (go/indexes.go).
--
-- The context is a parameter from outside: another goroutine cancels it at some moment. `some n` is
-- cancelled when it has been polled `n` more times, and stays so; `none` is never cancelled, as is
-- the nil context.
use osvpy.Prelude.{ℕ, zero, suc, Option, some, none}
use osvpy.Run.{Run, ok, panic, canceled}

abbrev pub Context : Type 0
Context = Option ℕ

-- Returns the context with one poll less to go.
unfoldable pub check_context : Context → Run Context
check_context none = ok none
check_context (some zero) = panic canceled
check_context (some (suc n)) = ok (some n)
