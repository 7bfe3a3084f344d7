-- ===== src/Commands/Reports.antt =====
-- What PUT and PUTNORESULT of src/protocol/commands.rs write while they receive.
use open_rmbt_server.Common.{
  ℕ, suc, ◌+◌, ◌*◌, ◌%◌, ◌^◌, ◌≤◌, ◌<◌, ◌≡◌, refl, ap, Bool, true, false, Option, none, some, List,
  [], ◌∷◌, ◌++◌, map,
}
use open_rmbt_server.Text.{Bytes, codes, show}
use open_rmbt_server.Io.{StreamKind, Message}
use open_rmbt_server.Commands.Chunks.{as_message}

-- The line of a report: the time, and the bytes received.
abbrev pub report_line : ℕ × ℕ → Bytes
report_line (ns, bytes) =
    codes "TIME " ++ (show ns ++ (codes " BYTES " ++ (show bytes ++ codes "\n")))

abbrev pub time_line : ℕ → Bytes
time_line ns = codes "TIME " ++ (show ns ++ codes "\n")

abbrev pub IsDue : Option ℕ → ℕ → Type 0
IsDue none ns = Unit
IsDue (some last) ns = last + 1000000 ≤ ns

-- The reports of an upload in chunks of `cs` bytes, where the clock shows `clock j` behind the chunk
-- with the index `j`. The indices are the time of the last report, the chunks received before, the
-- chunks received at the end, and the reports in between.
pub data Reports (clock : ℕ → ℕ) (cs : ℕ) : Option ℕ → ℕ → ℕ → List (ℕ × ℕ) → Type 0 where
  finished : {last : Option ℕ} {j : ℕ} → Reports clock cs last j j []
  told :
      {last : Option ℕ} {j n bytes : ℕ} {rs : List (ℕ × ℕ)}
      → IsDue last (clock j)
      → bytes ≡ (suc j * cs) % 2 ^ 64
      → Reports clock cs (some (clock j)) (suc j) n rs
      → Reports clock cs last j n ((clock j, bytes) ∷ rs)
  untold :
      {last j n : ℕ} {rs : List (ℕ × ℕ)}
      → clock j < last + 1000000
      → Reports clock cs (some last) (suc j) n rs
      → Reports clock cs (some last) j n rs

-- PUT reports, PUTNORESULT does not.
abbrev pub Reporting : Bool → (ℕ → ℕ) → ℕ → Option ℕ → ℕ → ℕ → List (ℕ × ℕ) → Type 0
Reporting true clock cs last j n rs = Reports clock cs last j n rs
Reporting false clock cs last j n rs = rs ≡ []

abbrev pub report_messages : StreamKind → List (ℕ × ℕ) → List Message
report_messages k rs = map (λ r. as_message k (report_line r)) rs

pub report_messages-append :
    (k : StreamKind) (l m : List (ℕ × ℕ))
    → report_messages k (l ++ m) ≡ report_messages k l ++ report_messages k m
report_messages-append k [] m = refl
report_messages-append k (r ∷ l) m =
    ap (◌∷◌ (as_message k (report_line r))) (report_messages-append k l m)
