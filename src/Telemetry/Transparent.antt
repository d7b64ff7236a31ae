-- ===== src/Telemetry/Transparent.antt =====
-- secure_app/app_telemetry.py: what telemetry leaves behind, and what it leaves alone.
use honeypot_m1spro.Base.{
  ℕ, ◌≡◌, refl, ap, Bool, true, false, ◌&&◌, Option, none, some, List, [], ◌∷◌, map, ◌==◌, leb,
  if◌then◌else◌, All, All-append,
}
use honeypot_m1spro.Telemetry.{
  enabled, classify, get_conn, do_insert, row_for, record_request, recorded, request_telemetry,
  Metrics, RequestRow, Sink, Weather, HttpCall,
}

-- Requests in order, each with what the outside did, and its answer.
unfoldable pub handle_all :
    {A : Type 0} → (A → Option ℕ) → Metrics → List (Weather × HttpCall × A) → Sink → List A × Sink
handle_all status_of m [] s = ([], s)
handle_all status_of m ((w, call, response) ∷ rest) s =
    let now = request_telemetry status_of m w call response s in
    let later = handle_all status_of m rest now.1 in (now.0 ∷ later.0, later.1)

abbrev pub responses : {A : Type 0} → List (Weather × HttpCall × A) → List A
responses calls = map (λ c. c.2) calls

-- A row says that its request was blocked exactly if its status is an error.
abbrev pub IsFaithful : Metrics → RequestRow → Type 0
IsFaithful m row =
    (row.app ≡ m.app)
    × (row.blocked ≡ leb 400 row.status_code)
    × (row.attack_type ≡ classify row.path)

either-IsFaithful :
    (m : Metrics) (b : Bool) (s t : Sink)
    → All (IsFaithful m) s.rows
    → All (IsFaithful m) t.rows
    → All (IsFaithful m) (if b then s else t).rows
either-IsFaithful m true s t h k = h
either-IsFaithful m false s t h k = k

do_insert-IsFaithful :
    (m : Metrics) (w : Weather) (row : RequestRow) (s : Sink)
    → IsFaithful m row
    → All (IsFaithful m) s.rows
    → All (IsFaithful m) (do_insert w row s).rows
unfolding do_insert
do_insert-IsFaithful m w row s h k =
    either-IsFaithful m (get_conn w s && w.inserts) _ _ (All-append _ s.rows (row ∷ []) k (h, tt)) k

record_request-IsFaithful :
    (m : Metrics) (w : Weather) (call : HttpCall) (status : ℕ) (s : Sink)
    → All (IsFaithful m) s.rows
    → All (IsFaithful m) (record_request m w call status s).rows
unfolding record_request row_for
record_request-IsFaithful m w call status s k = either-IsFaithful m (m.dsn == "") s _ k (
    either-IsFaithful m w.submits (do_insert w (row_for m call status) s) s
      (do_insert-IsFaithful m w (row_for m call status) s (refl, refl, refl) k) k)

recorded-IsFaithful :
    (m : Metrics) (w : Weather) (call : HttpCall) (status : Option ℕ) (s : Sink)
    → All (IsFaithful m) s.rows
    → All (IsFaithful m) (recorded m w call status s).rows
recorded-IsFaithful m w call none s k = k
recorded-IsFaithful m w call (some status) s k =
    either-IsFaithful m (enabled m) _ s (record_request-IsFaithful m w call status s k) k

-- Whatever the database and the pool do, every request gets the answer of its handler, in order, and each
-- row that was written bears the application's name, the attack that its path stands for, and whether its
-- status is an error.
pub handle_all-transparent :
    {A : Type 0} (status_of : A → Option ℕ) (m : Metrics) (calls : List (Weather × HttpCall × A))
    (s : Sink)
    → All (IsFaithful m) s.rows
    → ((handle_all status_of m calls s).0 ≡ responses calls)
      × All (IsFaithful m) (handle_all status_of m calls s).1.rows
unfolding handle_all request_telemetry
handle_all-transparent status_of m [] s k = (refl, k)
handle_all-transparent status_of m ((w, call, response) ∷ rest) s k =
    let (same, faithful) =
      handle_all-transparent status_of m rest (recorded m w call (status_of response) s)
        (recorded-IsFaithful m w call (status_of response) s k) in
    (ap (λ rs. response ∷ rs) same, faithful)
