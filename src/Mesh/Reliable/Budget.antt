-- ===== src/Mesh/Reliable/Budget.antt =====
-- How often the rounds of `reliable_tx_task` can find an entry due: a budget of visits.
use edge_device_esp.Base.{
  ℕ, suc, ◌+◌, ◌-◌, ◌*◌, ◌<◌, ◌≤◌, ◌≡◌, ◌≢◌, refl, arith, Bool-cases, inl, inr, ◌⊎◌,
}
use edge_device_esp.Base.{Bool, true, false, not, ◌&&◌, ◌||◌, leb, if◌then◌else◌, length, All}
use edge_device_esp.Base.{List, [], ◌∷◌}
use edge_device_esp.Mesh.Reliable.{Pending, Retry, idle, exhausted, unloadable, resend, is_due}
use edge_device_esp.Mesh.Reliable.{retry_entry, retry_scan}

-- An entry can still be visited 4 times less the attempts made: up to two more sends, and once to
-- be given up.
abbrev pub entry_budget : Pending → ℕ
entry_budget e = if e.valid then 4 - e.attempts else 0

abbrev pub budget : List Pending → ℕ
budget [] = 0
budget (e ∷ es) = entry_budget e + budget es

-- The attempts that the code makes with a packet: 1 when stored, 3 at most. A free entry has any.
abbrev pub is_bounded : Pending → Bool
is_bounded e = not e.valid || (leb 1 e.attempts && leb e.attempts 3)

abbrev pub IsBounded : Pending → Type 0
IsBounded e = is_bounded e ≡ true

retry_entry_lem :
    (limit now : ℕ) (e : Pending)
    → IsBounded e
    → e.valid ≡ true
    → (entry_budget (retry_entry limit now e).0 < entry_budget e)
      × IsBounded (retry_entry limit now e).0
      × ((retry_entry limit now e).1 ≢ idle)
unfolding retry_entry
retry_entry_lem limit now e b v = (ground arith, ground arith, ground arith)

due_valid : (now : ℕ) (e : Pending) → is_due now e ≡ true → e.valid ≡ true
due_valid now e h = ground arith

-- A round keeps the attempts of the packets between 1 and 3. It leaves the table alone if nothing is due, and uses up budget otherwise.
pub retry_scan_lem :
    (limit now : ℕ) (table : List Pending)
    → All IsBounded table
    → All IsBounded (retry_scan limit now table).0
      × (((retry_scan limit now table ≡ (table, idle)) × All (λ e. is_due now e ≡ false) table)
          ⊎ (budget (retry_scan limit now table).0 < budget table))
unfolding retry_scan
retry_scan_lem limit now [] b = (tt, inl (refl, tt))
retry_scan_lem limit now (e ∷ es) (b, bs) = elim (Bool-cases (is_due now e)) [
  | inl d ↦
      let (less, keep, busy) = retry_entry_lem limit now e b (due_valid now e d) in
      rw d ((keep, bs), inr (omega (arith, less)))
  | inr d ↦ elim (retry_scan_lem limit now es bs).1 [
    | inl (same, quiet) ↦
        rw d ((b, (retry_scan_lem limit now es bs).0), inl (rw same refl, (refl, quiet)))
    | inr less ↦ rw d ((b, (retry_scan_lem limit now es bs).0), inr (omega (arith, less)))
  ]
]

pub budget-le : (table : List Pending) → All IsBounded table → budget table ≤ 3 * length table
budget-le [] b = omega arith
budget-le (e ∷ es) (b, bs) = ground (arith, budget-le es bs)

abbrev pub busy : Retry → ℕ → ℕ
busy idle n = n
busy (exhausted k a) n = suc n
busy unloadable n = suc n
busy (resend e) n = suc n

busy_le : (r : Retry) (n : ℕ) → busy r n ≤ suc n
busy_le idle n = omega arith
busy_le (exhausted k a) n = omega arith
busy_le unloadable n = omega arith
busy_le (resend e) n = omega arith

-- Rounds at given times with no packet stored in between: the table afterwards, and how many of
-- the rounds found an entry due.
pub rounds : ℕ → List ℕ → List Pending → List Pending × ℕ
rounds limit [] table = (table, 0)
rounds limit (now ∷ times) table =
    let (t, r) = retry_scan limit now table in let (t', n) = rounds limit times t in (t', busy r n)

rounds_lem :
    (limit : ℕ) (times : List ℕ) (table : List Pending)
    → All IsBounded table
    → (rounds limit times table).1 + budget (rounds limit times table).0 ≤ budget table
unfolding rounds
rounds_lem limit [] table b = omega arith
rounds_lem limit (now ∷ times) table b =
    let (keep, cases) = retry_scan_lem limit now table b in
    let ih = rounds_lem limit times (retry_scan limit now table).0 keep in
    elim cases [
      | inl (same, quiet) ↦ rw same (rw same at ih)
      | inr less ↦
          let n = (rounds limit times (retry_scan limit now table).0).1 in
          omega (arith, ih, less, busy_le (retry_scan limit now table).1 n)
    ]

-- From any table of at most 24 entries, of which those in use have 1 to 3 attempts made, at most 72 rounds of
-- `reliable_tx_task` send or give up a packet, whatever the clock says, until another is stored.
pub rounds_bounded :
    (limit : ℕ) (times : List ℕ) (table : List Pending)
    → All IsBounded table
    → length table ≤ 24
    → (rounds limit times table).1 ≤ 72
rounds_bounded limit times table b h =
    omega (arith, rounds_lem limit times table b, budget-le table b)
