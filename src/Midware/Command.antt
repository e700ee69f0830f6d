-- ===== src/Midware/Command.antt =====
-- The commands of midware/src/easy_command.h and midware/src/easy_command.cpp, which carry what
-- happened from the threads of the network to the thread of a server or client.
use lib_fantuan.Prelude.{ℕ, Option, none, some, List, read}

-- A data type for the structures, which hold `m_iCmdId` in front. A connection is known by its
-- address.
pub data Command : Type 0 where
  on_connect on_disconnect : ℕ → Command
  on_data : ℕ → List ℕ → Command
  send_data : ℕ → ℕ → ℕ → List ℕ → Command
  shutdown : Command
  disconnect : ℕ → ℕ → Command
  on_session_disconnect : ℕ → Command
  app : ℕ → Command

-- `EasyCommandOnData::CopyData`, where the allocation succeeds: `none` if `pData` holds less.
unfoldable pub copy_data : ℕ → ℕ → List ℕ → Option Command
copy_data conn len data_bytes = elim (read data_bytes 0 len) [
  | none ↦ none
  | some bytes ↦ some (on_data conn bytes)
]
