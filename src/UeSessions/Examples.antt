-- ===== src/UeSessions/Examples.antt =====
-- Two UEs, of which one has a session left and was deleted once before.
use smf_nwdaf_ext.Common.{suc, ◌+◌, ◌≡◌, ◌↔◌, true, List, [], ◌∷◌, arith}
use smf_nwdaf_ext.UeSessions.{init_smf_ue_data, get_pdu_session_count, is_last_pdu_session}
use smf_nwdaf_ext.UeSessions.Counts.{
  Event, starts, ends, deletes, subscribes, handle_all, Bracketed, handle_all-counts,
}

abbrev events : List Event
events =
    starts 1
    ∷ ends 1
    ∷ starts 1
    ∷ deletes 1
    ∷ starts 1
    ∷ subscribes 1 "s"
    ∷ starts 2
    ∷ starts 1
    ∷ ends 1
    ∷ ends 2
    ∷ []

events-Bracketed : Bracketed 1 events 0
events-Bracketed = (λ _. omega arith, (λ _. omega arith, (λ h. absurd (ground arith), tt)))

handle_all-counts_example :
    (get_pdu_session_count (handle_all events init_smf_ue_data) 1 + 1 ≡ 2)
    × ((is_last_pdu_session (handle_all events init_smf_ue_data) 1 ≡ true) ↔ (2 ≡ suc 1))
handle_all-counts_example = handle_all-counts events 1 events-Bracketed
