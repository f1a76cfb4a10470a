-- ===== src/Mesh/Daemon/Node/Sequence.antt =====
-- The sequence numbers of a daemon, and of the one that is started after it.
use rout_wire.Base.{
  ℕ, zero, suc, ◌+◌, ◌^◌, ◌<◌, ◌≡◌, refl, ap, ◌∙◌, subst, List, [], ◌∷◌, ◌++◌, Ordered, All,
  All-mono, All-append, arith, Option, none, some, ◌%◌,
}
use rout_wire.Base.Bytes.{Bytes}
use rout_wire.Engine.Envelope.{Identity}
use rout_wire.Mesh.Deriver.{Derivation, Deriver, Checked, valid, bad_name, bad_cidr, NameError}
use rout_wire.Mesh.Spokes.{SpokeSet, Disk}
use rout_wire.Mesh.Daemon.Node.{
  Settings, Daemon, next_seq, with_defaults, with_ip, with_identity, with_key, checked_name,
  new_daemon,
}

-- The numbers that a daemon gives out in that many calls of nextSeq, at the Unix times `unix`.
unfoldable pub issued : (ℕ → ℕ) → ℕ → Daemon → List ℕ
issued unix zero dm = []
issued unix (suc n) dm = let (seq, dm') = next_seq (unix n) dm in seq ∷ issued unix n dm'

-- The n numbers from `first` on.
abbrev pub count_from : ℕ → ℕ → List ℕ
count_from first zero = []
count_from first (suc n) = first ∷ count_from (first + 1) n

next_seq-suc :
    (t : ℕ) (dm : Daemon)
    → 0 < dm.seq
    → dm.seq + 1 < 2 ^ 64
    → ((next_seq t dm).0 ≡ dm.seq + 1) × ((next_seq t dm).1.seq ≡ dm.seq + 1)
unfolding next_seq
next_seq-suc t dm p b = (ground arith, ground arith)

issued-counts :
    (unix : ℕ → ℕ) (n : ℕ) (dm : Daemon)
    → 0 < dm.seq
    → dm.seq + n < 2 ^ 64
    → issued unix n dm ≡ count_from (dm.seq + 1) n
unfolding issued
issued-counts unix zero dm p b = refl
issued-counts unix (suc n) dm p b =
    let step = next_seq-suc (unix n) dm p (omega arith) in
    let dm' = (next_seq (unix n) dm).1 in
    let rest = issued-counts unix n dm' (omega (arith, step.1)) (omega (arith, step.1)) in
    ap (λ more. (next_seq (unix n) dm).0 ∷ more) (rest ∙ ap (λ k. count_from (k + 1) n) step.1)
    ∙ ap (λ k. k ∷ count_from (dm.seq + 1 + 1) n) step.0

-- The counter that a daemon starts with.
abbrev Starts : ℕ → Checked Daemon → Type 0
Starts nano (valid dm) = dm.seq ≡ nano % 2 ^ 64
Starts nano (bad_name e) = Unit
Starts nano bad_cidr = Unit

module _ (x : Derivation) (cfg : Settings) (d : Deriver) (set : SpokeSet) (nano : ℕ) where
  with_ip-Starts :
      (key : Bytes) (me : Identity) (ip : Checked ℕ)
      → Starts nano (with_ip x cfg d set nano key me ip)
  unfolding with_ip
  with_ip-Starts key me (valid ip) = refl
  with_ip-Starts key me (bad_name e) = tt
  with_ip-Starts key me bad_cidr = tt

  with_identity-Starts :
      (key : Bytes) (me : Checked Identity) → Starts nano (with_identity x cfg d set nano key me)
  unfolding with_identity
  with_identity-Starts key (valid me) = with_ip-Starts key me _
  with_identity-Starts key (bad_name e) = tt
  with_identity-Starts key bad_cidr = tt

  with_key-Starts : (key : Checked Bytes) → Starts nano (with_key x cfg d set nano key)
  unfolding with_key
  with_key-Starts (valid key) = with_identity-Starts key _
  with_key-Starts (bad_name e) = tt
  with_key-Starts bad_cidr = tt

  checked_name-Starts : (e : Option NameError) → Starts nano (checked_name x cfg d set nano e)
  unfolding checked_name
  checked_name-Starts none = with_key-Starts _
  checked_name-Starts (some e) = tt

new_daemon-seq :
    (x : Derivation) (cfg : Settings) (d : Deriver) (disk : Disk) (nano : ℕ) (dm : Daemon)
    → nano < 2 ^ 64
    → new_daemon x cfg d disk nano ≡ valid dm
    → dm.seq ≡ nano
unfolding new_daemon
new_daemon-seq x cfg d disk nano dm b e =
    let starts : dm.seq ≡ nano % 2 ^ 64 =
      subst (Starts nano) e (checked_name-Starts x (with_defaults cfg) d _ nano _) in
    omega (arith, starts)

abbrev pub Ascending : List ℕ → Type 0
Ascending = Ordered (λ a b. a < b)

count_from-above :
    (low first n : ℕ) → low < first → All (λ s. (low < s) × (s < first + n)) (count_from first n)
count_from-above low first zero h = tt
count_from-above low first (suc n) h = (
  (h, omega arith),
  All-mono {P = λ s. (low < s) × (s < first + 1 + n)} (λ s k. (k.0, omega (arith, k.1)))
      (count_from (first + 1) n) (count_from-above low (first + 1) n (omega arith)),
)

count_from-Ascending : (first n : ℕ) → Ascending (count_from first n)
count_from-Ascending first zero = tt
count_from-Ascending first (suc n) = (
  All-mono {P = λ s. (first < s) × (s < first + 1 + n)} (λ s k. k.0) (count_from (first + 1) n)
      (count_from-above first (first + 1) n (omega arith)),
  count_from-Ascending (first + 1) n,
)

Ascending-append :
    (xs ys : List ℕ)
    → Ascending xs
    → Ascending ys
    → All (λ a. All (λ b. a < b) ys) xs
    → Ascending (xs ++ ys)
Ascending-append [] ys h k between = k
Ascending-append (x ∷ xs) ys h k between =
    (All-append (λ b. x < b) xs ys h.0 between.0, Ascending-append xs ys h.1 k between.1)

-- Two daemons of one node, made at two times, of which the earlier one gives out fewer numbers than
-- there are nanoseconds between them: over any number of calls, all numbers that the earlier one
-- and then the later one give out are ascending, and above the time, in nanoseconds, at which the
-- earlier one was made. No number reaches 2 ^ 64, and no time is zero.
pub issued-Ascending :
    (x : Derivation) (d : Deriver) (cfg cfg' : Settings) (disk disk' : Disk) (nano nano' : ℕ)
    (unix unix' : ℕ → ℕ) (n m : ℕ) (earlier later : Daemon)
    → new_daemon x cfg d disk nano ≡ valid earlier
    → new_daemon x cfg' d disk' nano' ≡ valid later
    → 0 < nano
    → nano + n < nano'
    → nano' + m < 2 ^ 64
    → let all = issued unix n earlier ++ issued unix' m later in
      Ascending all × All (λ s. nano < s) all
issued-Ascending x d cfg cfg' disk disk' nano nano' unix unix' n m earlier later e e' p q b =
    let start = new_daemon-seq x cfg d disk nano earlier (omega arith) e in
    let start' = new_daemon-seq x cfg' d disk' nano' later (omega arith) e' in
    let one = issued-counts unix n earlier (omega (arith, start)) (omega (arith, start)) in
    let two = issued-counts unix' m later (omega (arith, start')) (omega (arith, start')) in
    let low = count_from-above nano (earlier.seq + 1) n (omega (arith, start)) in
    let high = count_from-above nano (later.seq + 1) m (omega (arith, start')) in
    rw (one, two)
      (
        Ascending-append (count_from (earlier.seq + 1) n) (count_from (later.seq + 1) m)
            (count_from-Ascending (earlier.seq + 1) n) (count_from-Ascending (later.seq + 1) m)
            (All-mono {P = λ s. (nano < s) × (s < earlier.seq + 1 + n)}
              (λ a k.
                All-mono {P = λ s. (nano + n < s) × (s < later.seq + 1 + m)}
                  (λ b j. omega (arith, k.1, j.0, start)) (count_from (later.seq + 1) m)
                  (count_from-above (nano + n) (later.seq + 1) m (omega (arith, start'))))
              (count_from (earlier.seq + 1) n) low),
        All-append (λ s. nano < s) (count_from (earlier.seq + 1) n) (count_from (later.seq + 1) m)
            (All-mono {P = λ s. (nano < s) × (s < earlier.seq + 1 + n)} (λ s k. k.0) _ low)
            (All-mono {P = λ s. (nano < s) × (s < later.seq + 1 + m)} (λ s k. k.0) _ high),
      )
