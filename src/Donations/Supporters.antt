-- ===== src/Donations/Supporters.antt =====
-- core/donations/hosted_services.py and models.py: a donation that succeeds, its supporter and the
-- mail that confirms it. The eviction of cached users and the texts of the mail are left out.
use ziona_server.Base.{
  ℕ, suc, Bool, true, false, not, Option, none, some, List, [], ◌∷◌, ◌++◌, leb, if◌then◌else◌, Text,
  update_at,
}

pub record SupporterIdentity : Type 0 where
  pub id : ℕ
  pub is_early_supporter : Bool
  pub early_supporter_number : Option ℕ
  pub first_supported_at : Option ℕ
  pub last_supported_at : Option ℕ

pub record SupporterProgramState : Type 0 where
  pub next_early_supporter_number : ℕ
  pub assigned_early_supporter_count : ℕ

pub data DonationStatus : Type 0 where
  pending succeeded failed expired cancelled refunded : DonationStatus

pub record Donation : Type 0 where
  pub id : ℕ
  pub donor_name : Text
  pub donor_email : Text
  pub amount : ℕ
  pub status : DonationStatus
  pub completed_at : Option ℕ
  pub is_early_supporter : Bool

-- `program` is the row of the key "global", if it is there; `mails` are the donations confirmed by
-- mail, oldest first.
pub record DonationStore : Type 0 where
  pub identities : List SupporterIdentity
  pub program : Option SupporterProgramState
  pub donations : List Donation
  pub mails : List Donation

abbrev pub early_supporter_limit : ℕ
early_supporter_limit = 1000

abbrev pub identity_key : SupporterIdentity → ℕ
identity_key x = x.id

abbrev pub donation_key : Donation → ℕ
donation_key d = d.id

abbrev pub has_succeeded : DonationStatus → Bool
has_succeeded pending = false
has_succeeded succeeded = true
has_succeeded failed = false
has_succeeded expired = false
has_succeeded cancelled = false
has_succeeded refunded = false

-- `value or now`, for a time that is set or not.
abbrev pub or_now : ℕ → Option ℕ → ℕ
or_now now none = now
or_now now (some t) = t

-- `get_or_create(key="global")`
abbrev pub program_of : DonationStore → SupporterProgramState
program_of s = elim s.program [
  | some p ↦ p
  | none ↦ record { next_early_supporter_number = 1; assigned_early_supporter_count = 0 }
]

abbrev pub touched : ℕ → SupporterIdentity → SupporterIdentity
touched now x = record x {
  first_supported_at = some (or_now now x.first_supported_at);
  last_supported_at = some now;
}

-- The supporter and the state of the program after a draw of a number, while some are left.
abbrev pub draw_number :
    SupporterIdentity → SupporterProgramState → SupporterIdentity × SupporterProgramState
draw_number x p =
    if leb p.next_early_supporter_number early_supporter_limit
    then (
      record x {
        is_early_supporter = true;
        early_supporter_number = some p.next_early_supporter_number;
      },
      record p {
        next_early_supporter_number = suc p.next_early_supporter_number;
        assigned_early_supporter_count = suc p.assigned_early_supporter_count;
      },
    )
    else (x, p)

-- `identity.save(update_fields=...)`
abbrev pub save_identity : SupporterIdentity → DonationStore → DonationStore
save_identity x s = record s {
  identities =
      update_at identity_key (λ r. true) x.id
        (λ r. record r {
          is_early_supporter = x.is_early_supporter;
          early_supporter_number = x.early_supporter_number;
          first_supported_at = x.first_supported_at;
          last_supported_at = x.last_supported_at;
        })
        s.identities;
}

-- The object that the caller holds afterwards, and the tables.
unfoldable pub assign_early_supporter :
    ℕ → SupporterIdentity → DonationStore → SupporterIdentity × DonationStore
assign_early_supporter now x s =
    if x.is_early_supporter
    then (touched now x, save_identity (touched now x) s)
    else let (y, p) = draw_number (touched now x) (program_of s) in
      (y, save_identity y (record s { program = some p }))

abbrev pub save_donation : Donation → DonationStore → DonationStore
save_donation d s = record s {
  donations =
      update_at donation_key (λ r. true) d.id
        (λ r. record r {
          status = d.status;
          completed_at = d.completed_at;
          is_early_supporter = d.is_early_supporter;
        })
        s.donations;
}

abbrev pub completed : ℕ → Bool → Donation → Donation
completed now early d = record d {
  status = succeeded;
  completed_at = some (or_now now d.completed_at);
  is_early_supporter = early;
}

abbrev pub confirm : Bool → Donation → DonationStore → DonationStore
confirm first_success d s = if first_success then record s { mails = s.mails ++ d ∷ [] } else s

-- The mail goes out at the commit, once the rows are written.
unfoldable pub mark_succeeded :
    ℕ → Donation → Option SupporterIdentity → DonationStore → DonationStore
mark_succeeded now d none s =
    let e = completed now d.is_early_supporter d in
    confirm (not (has_succeeded d.status)) e (save_donation e s)
mark_succeeded now d (some x) s =
    let (y, t) = assign_early_supporter now x s in
    let e = completed now y.is_early_supporter d in
    confirm (not (has_succeeded d.status)) e (save_donation e t)
