-- ===== src/AsyncNet/SessionManager.antt =====
-- 01_AsyncNet_Server/include/SessionManager.hpp and src/SessionManager.cpp. A session is named by a
-- number, as a pointer names it there. The mutex makes each operation one step.
pub mod Members
use object_oriented_programm.Prelude.{
  ℕ, ◌+◌, ◌%◌, ◌^◌, Bool, true, false, ◌||◌, List, [], ◌∷◌, length, ◌==◌, if◌then◌else◌,
}

pub record SessionManager : Type 0 where
  pub sessions : List ℕ
  pub total_messages_processed : ℕ

unfoldable pub new_manager : SessionManager
new_manager = record { sessions = []; total_messages_processed = 0 }

-- `find`, `insert` and `erase` of the set.
abbrev pub contains : ℕ → List ℕ → Bool
contains session [] = false
contains session (member ∷ members) = (member == session) || contains session members

unfoldable pub insert_member : ℕ → List ℕ → List ℕ
insert_member session members = if contains session members then members else session ∷ members

unfoldable pub erase_member : ℕ → List ℕ → List ℕ
erase_member session [] = []
erase_member session (member ∷ members) =
    let rest = erase_member session members in if member == session then rest else member ∷ rest

unfoldable pub add_session : ℕ → SessionManager → SessionManager
add_session session m = record m { sessions = insert_member session m.sessions }

unfoldable pub remove_session : ℕ → SessionManager → SessionManager
remove_session session m = record m { sessions = erase_member session m.sessions }

-- `sessions_.clear()` of stopAll; Server calls stop of the members before.
unfoldable pub clear_sessions : SessionManager → SessionManager
clear_sessions m = record m { sessions = [] }

unfoldable pub get_active_connections_count : SessionManager → ℕ
get_active_connections_count m = length m.sessions

unfoldable pub get_total_processed_messages : SessionManager → ℕ
get_total_processed_messages m = m.total_messages_processed

unfoldable pub increment_processed_messages : SessionManager → SessionManager
increment_processed_messages m = record m {
  total_messages_processed = (m.total_messages_processed + 1) % 2 ^ 64;
}
