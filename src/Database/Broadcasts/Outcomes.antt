-- ===== src/Database/Broadcasts/Outcomes.antt =====
-- Recipients by outcome: a rearrangement of all of them.
use rs8kvn_bot.Common.{
  ◌+◌, ◌≡◌, refl, ap, arith, Bool, true, false, List, [], ◌∷◌, ◌++◌, map, Perm, select, count_if,
  length,
}
use mathlib.Core.List.{perm_middle}
use mathlib.Core.List.Perm
use rs8kvn_bot.Common.Int.{ℤ}
use rs8kvn_bot.Database.Models.{Recipient, RecipientStatus, BroadcastSendError}
use rs8kvn_bot.Database.Broadcasts.Stats.{truncate_database_error}

abbrev pub is_sent : Recipient → Bool
is_sent r = elim r.status [ RecipientStatus.sent ↦ true | _ ↦ false ]

abbrev pub is_blocked : Recipient → Bool
is_blocked r = elim r.status [ RecipientStatus.blocked ↦ true | _ ↦ false ]

abbrev pub is_unreachable : Recipient → Bool
is_unreachable r = elim r.status [ RecipientStatus.unreachable ↦ true | _ ↦ false ]

abbrev pub has_failed : Recipient → Bool
has_failed r = elim r.status [ RecipientStatus.failed ↦ true | _ ↦ false ]

abbrev pub is_open : Recipient → Bool
is_open r = elim r.status [
  | RecipientStatus.pending ↦ true
  | RecipientStatus.sending ↦ true
  | _ ↦ false
]

abbrev pub user : Recipient → ℤ
user r = r.telegram_id

abbrev pub send_error : Recipient → BroadcastSendError
send_error r = record { telegram_id = r.telegram_id; error = truncate_database_error r.last_error }

abbrev pub by_outcome : List Recipient → List ℤ
by_outcome rs =
    map user (select is_sent rs)
    ++ (map user (select is_blocked rs)
        ++ (map user (select is_unreachable rs)
            ++ (map user (select has_failed rs) ++ map user (select is_open rs))))

-- The first element may stand behind a longer front.
pub deeper :
    {u : ℤ} (front : List ℤ) {xs ys : List ℤ}
    → Perm (u ∷ xs) ys
    → Perm (u ∷ (front ++ xs)) (front ++ ys)
deeper front {xs} h = Perm.trans (Perm.symm (perm_middle front xs)) (Perm.append_left front h)

pub by_outcome-one :
    (r : Recipient) (rs : List Recipient) (status : RecipientStatus)
    → r.status ≡ status
    → Perm (user r ∷ by_outcome rs) (by_outcome (r ∷ rs))
by_outcome-one r rs RecipientStatus.sent e = rw e (Perm.refl _)
by_outcome-one r rs RecipientStatus.blocked e =
    rw e (deeper (map user (select is_sent rs)) (Perm.refl _))
by_outcome-one r rs RecipientStatus.unreachable e =
    rw e (
      deeper (map user (select is_sent rs))
        (deeper (map user (select is_blocked rs)) (Perm.refl _)))
by_outcome-one r rs RecipientStatus.failed e = rw e (
    deeper (map user (select is_sent rs)) (
      deeper (map user (select is_blocked rs))
        (deeper (map user (select is_unreachable rs)) (Perm.refl _))))
by_outcome-one r rs RecipientStatus.pending e = rw e (
    deeper (map user (select is_sent rs)) (
      deeper (map user (select is_blocked rs)) (
        deeper (map user (select is_unreachable rs))
          (deeper (map user (select has_failed rs)) (Perm.refl _)))))
by_outcome-one r rs RecipientStatus.sending e = rw e (
    deeper (map user (select is_sent rs)) (
      deeper (map user (select is_blocked rs)) (
        deeper (map user (select is_unreachable rs))
          (deeper (map user (select has_failed rs)) (Perm.refl _)))))

pub by_outcome-Perm : (rs : List Recipient) → Perm (map user rs) (by_outcome rs)
by_outcome-Perm [] = Perm.refl _
by_outcome-Perm (r ∷ rs) =
    Perm.trans (Perm.cons (user r) (by_outcome-Perm rs)) (by_outcome-one r rs r.status refl)

pub error_users :
    (rs : List Recipient)
    → map (λ (e : BroadcastSendError). e.telegram_id) (map send_error rs) ≡ map user rs
error_users [] = refl
error_users (r ∷ rs) = ap (λ us. user r ∷ us) (error_users rs)

-- The statuses are all told apart.
pub counts_add_up :
    (rs : List Recipient)
    → length rs
      ≡ count_if is_sent rs
        + count_if is_blocked rs
        + count_if is_unreachable rs
        + count_if has_failed rs
        + length (map user (select is_open rs))
counts_add_up [] = refl
counts_add_up (r ∷ rs) = ground (arith, counts_add_up rs)
