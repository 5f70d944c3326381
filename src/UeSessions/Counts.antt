-- ===== src/UeSessions/Counts.antt =====
-- The counts over any history of sessions that start and end, and of UEs that are deleted.
use Prim.Native.String.{String}
use smf_nwdaf_ext.Common.{
  ℕ, suc, ◌+◌, ◌-◌, ◌≤◌, ◌≡◌, ◌↔◌, refl, ap, ◌∙◌, true, List, [], ◌∷◌, ◌==◌, if◌then◌else◌, arith,
}
use smf_nwdaf_ext.UeSessions.{
  Ues, init_smf_ue_data, increment_pdu_session_count, decrement_pdu_session_count,
  set_subscription_id, delete_ue, is_last_pdu_session, get_pdu_session_count,
}

-- A session of a UE starts or ends, its subscription is noted, or the UE is deleted, as it is when its
-- last session ends.
pub data Event : Type 0 where
  starts ends deletes : ℕ → Event
  subscribes : ℕ → String → Event

abbrev pub handle : Event → Ues → Ues
handle (starts ue) ues = increment_pdu_session_count ues ue
handle (ends ue) ues = decrement_pdu_session_count ues ue
handle (deletes ue) ues = delete_ue ues ue
handle (subscribes ue id) ues = set_subscription_id ues ue id

abbrev pub handle_all : List Event → Ues → Ues
handle_all [] ues = ues
handle_all (e ∷ events) ues = handle_all events (handle e ues)

-- The sessions of a UE that are open after the events, when `n` were before.
abbrev pub open_sessions : ℕ → List Event → ℕ → ℕ
open_sessions ue [] n = n
open_sessions ue (starts v ∷ events) n = open_sessions ue events (if v == ue then suc n else n)
open_sessions ue (ends v ∷ events) n = open_sessions ue events (if v == ue then n - 1 else n)
open_sessions ue (deletes v ∷ events) n = open_sessions ue events (if v == ue then 0 else n)
open_sessions ue (subscribes v id ∷ events) n = open_sessions ue events n

get-increment :
    (ues : Ues) (v ue : ℕ)
    → get_pdu_session_count (increment_pdu_session_count ues v) ue
      ≡ (if v == ue then suc (get_pdu_session_count ues ue) else get_pdu_session_count ues ue)
unfolding get_pdu_session_count increment_pdu_session_count
get-increment ues v ue = ground arith

get-decrement :
    (ues : Ues) (v ue : ℕ)
    → get_pdu_session_count (decrement_pdu_session_count ues v) ue
      ≡ (if v == ue then get_pdu_session_count ues ue - 1 else get_pdu_session_count ues ue)
unfolding get_pdu_session_count decrement_pdu_session_count
get-decrement ues v ue = ground arith

get-delete :
    (ues : Ues) (v ue : ℕ)
    → get_pdu_session_count (delete_ue ues v) ue
      ≡ (if v == ue then 0 else get_pdu_session_count ues ue)
unfolding get_pdu_session_count delete_ue
get-delete ues v ue = ground arith

get-subscribe :
    (ues : Ues) (v ue : ℕ) (id : String)
    → get_pdu_session_count (set_subscription_id ues v id) ue ≡ get_pdu_session_count ues ue
unfolding get_pdu_session_count set_subscription_id
get-subscribe ues v ue id = ground arith

handle_all-opens :
    (events : List Event) (ues : Ues) (ue : ℕ)
    → get_pdu_session_count (handle_all events ues) ue
      ≡ open_sessions ue events (get_pdu_session_count ues ue)
handle_all-opens [] ues ue = refl
handle_all-opens (starts v ∷ events) ues ue =
    handle_all-opens events (increment_pdu_session_count ues v) ue
    ∙ ap (open_sessions ue events) (get-increment ues v ue)
handle_all-opens (ends v ∷ events) ues ue =
    handle_all-opens events (decrement_pdu_session_count ues v) ue
    ∙ ap (open_sessions ue events) (get-decrement ues v ue)
handle_all-opens (deletes v ∷ events) ues ue =
    handle_all-opens events (delete_ue ues v) ue
    ∙ ap (open_sessions ue events) (get-delete ues v ue)
handle_all-opens (subscribes v id ∷ events) ues ue =
    handle_all-opens events (set_subscription_id ues v id) ue
    ∙ ap (open_sessions ue events) (get-subscribe ues v ue id)

-- The sessions of a UE that have started and that have ended since it was last deleted, when so many
-- had before.
abbrev pub started_ended : ℕ → List Event → ℕ → ℕ → ℕ × ℕ
started_ended ue [] started ended = (started, ended)
started_ended ue (starts v ∷ events) started ended =
    started_ended ue events (if v == ue then suc started else started) ended
started_ended ue (ends v ∷ events) started ended =
    started_ended ue events started (if v == ue then suc ended else ended)
started_ended ue (deletes v ∷ events) started ended =
    started_ended ue events (if v == ue then 0 else started) (if v == ue then 0 else ended)
started_ended ue (subscribes v id ∷ events) started ended = started_ended ue events started ended

-- A session of the UE ends only while one is open, `n` being open at first.
abbrev pub Bracketed : ℕ → List Event → ℕ → Type 0
Bracketed ue [] n = Unit
Bracketed ue (starts v ∷ events) n = Bracketed ue events (if v == ue then suc n else n)
Bracketed ue (ends v ∷ events) n =
    ((v == ue) ≡ true → 1 ≤ n) × Bracketed ue events (if v == ue then n - 1 else n)
Bracketed ue (deletes v ∷ events) n = Bracketed ue events (if v == ue then 0 else n)
Bracketed ue (subscribes v id ∷ events) n = Bracketed ue events n

balance :
    (ue : ℕ) (events : List Event) (n started ended : ℕ)
    → Bracketed ue events n
    → n + ended ≡ started
    → open_sessions ue events n + (started_ended ue events started ended).1
      ≡ (started_ended ue events started ended).0
balance ue [] n started ended b e = e
balance ue (starts v ∷ events) n started ended b e =
    balance ue events (if v == ue then suc n else n) (if v == ue then suc started else started)
      ended b (ground (arith, e))
balance ue (ends v ∷ events) n started ended (p, b) e =
    balance ue events (if v == ue then n - 1 else n) started (if v == ue then suc ended else ended)
      b (ground (arith, e, p))
balance ue (deletes v ∷ events) n started ended b e =
    balance ue events (if v == ue then 0 else n) (if v == ue then 0 else started)
      (if v == ue then 0 else ended) b (ground (arith, e))
balance ue (subscribes v id ∷ events) n started ended b e = balance ue events n started ended b e

-- After any history of sessions that start and end, subscriptions and deletions of UEs in which a
-- session of the UE ends only while one of its sessions is open, whatever the other UEs do, the UE's
-- count is the number of its sessions that have started and not ended since the UE was last deleted,
-- and `IsLastPduSession` holds just when that is one.
pub handle_all-counts :
    (events : List Event) (ue : ℕ)
    → Bracketed ue events 0
    → (get_pdu_session_count (handle_all events init_smf_ue_data) ue
          + (started_ended ue events 0 0).1
        ≡ (started_ended ue events 0 0).0)
      × ((is_last_pdu_session (handle_all events init_smf_ue_data) ue ≡ true)
          ↔ ((started_ended ue events 0 0).0 ≡ suc (started_ended ue events 0 0).1))
unfolding get_pdu_session_count is_last_pdu_session
handle_all-counts events ue b =
    let opens = handle_all-opens events init_smf_ue_data ue in
    let sum = balance ue events 0 0 0 b refl in
    (omega (arith, opens, sum), ground (arith, opens, sum))
