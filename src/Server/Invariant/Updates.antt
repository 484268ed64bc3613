-- ===== src/Server/Invariant/Updates.antt =====
-- Writes to the server of lib/fast_server.js that keep its invariant.
use mathlib.Core.Path.{fun_ext}
use node_fast.Base.{
  ℕ, ◌+◌, ◌<◌, ◌≡◌, ◌≢◌, sym, ap, ◌∙◌, subst, inl, inr, String, Bool, true, Bool-cases, Option,
  some, ◌==◌, length, arith, List,
}
use node_fast.Base.Map.{lookup, Sorted}
use node_fast.Server.State.{Connection, Handler, Server, update, put_connection}
use node_fast.Server.Invariant.{is_sound, IsConnection, IsConsistent}

pub update_self {ℓ} : {A : Type ℓ} (heap : ℕ → A) (k : ℕ) (a : A) → update heap k a k ≡ a
update_self heap k a = ground arith

pub update-update {ℓ} :
    {A : Type ℓ} (heap : ℕ → A) (k : ℕ) (a b : A) → update (update heap k a) k b ≡ update heap k b
update-update heap k a b = fun_ext λ j. ground arith

pub update_cases {ℓ κ} :
    {A : Type ℓ} (P : ℕ → A → Type κ) (heap : ℕ → A) (k : ℕ) (a : A) (j : ℕ)
    → (j ≡ k → P k a)
    → (j ≢ k → P j (heap j))
    → P j (update heap k a j)
update_cases P heap k a j hit miss = elim (Bool-cases (j == k)) [
  | inl e ↦ let same : j ≡ k = ground arith in rw (e, same) (hit same)
  | inr e ↦ rw e (miss (ground arith))
]

-- The server's own counters, logs and handlers do not matter to the invariant.
pub counters-IsConsistent :
    (s : Server)
    → IsConsistent s
    → (handlers : String → Option Handler) (callbacks immediates invoked : List ℕ)
      (is_closed : Bool) (noconn badconn aborts created started completed nfailed : ℕ)
    → IsConsistent (record s {
      handlers = handlers;
      callbacks = callbacks;
      immediates = immediates;
      invoked = invoked;
      is_closed = is_closed;
      nignored_noconn = noconn;
      nignored_badconn = badconn;
      nignored_aborts = aborts;
      nconnections_created = created;
      nrequests_started = started;
      nrequests_completed = completed;
      nrequests_failed = nfailed;
    })
counters-IsConsistent s v _ _ _ _ _ _ _ _ _ _ _ _ = record {
  alloc_ok = v.alloc_ok;
  alloc_min = v.alloc_min;
  alloc_max = v.alloc_max;
  conns_sorted = v.conns_sorted;
  conns_entry = v.conns_entry;
  connection = v.connection;
  running = v.running;
}

-- A write to one connection that leaves its identifier and its requests alone, and makes it no
-- sounder.
pub flags-IsConsistent :
    (s : Server) (h : ℕ) (c : Connection)
    → IsConsistent s
    → c.connid ≡ (s.connections h).connid
    → c.pending ≡ (s.connections h).pending
    → c.nstarted ≡ (s.connections h).nstarted
    → c.ncompleted ≡ (s.connections h).ncompleted
    → (is_sound c ≡ true → is_sound (s.connections h) ≡ true)
    → IsConsistent (put_connection h c s)
flags-IsConsistent s h c v same_id same_pending same_started same_completed sound = record {
  alloc_ok = v.alloc_ok;
  alloc_min = v.alloc_min;
  alloc_max = v.alloc_max;
  conns_sorted = v.conns_sorted;
  conns_entry = λ k j e.
      let old = v.conns_entry k j e in
      (
        old.0,
        update_cases (λ i x. x.connid ≡ k) s.connections h c j
            (λ same. same_id ∙ subst (λ i. (s.connections i).connid ≡ k) same old.1) (λ _. old.1),
      );
  connection = λ j made.
      update_cases (λ i x. IsConnection s.nrequests i s.requests x (lookup x.connid s.conns))
        s.connections h c j
        (λ same.
          let old = v.connection h (subst (λ i. i < s.nconnections) same made) in
          record {
            pending_sorted = subst Sorted (sym same_pending) old.pending_sorted;
            counted =
                same_started
                ∙ old.counted
                ∙ sym (
                    ap (λ n. n + length c.pending) same_completed
                    ∙ ap (λ p. (s.connections h).ncompleted + length p) same_pending);
            active = λ some_left.
                ap (λ k. lookup k s.conns) same_id
                ∙ old.active (subst (λ p. 0 < length p) same_pending some_left);
            entries = λ k id e.
                let entry = old.entries k id (ap (lookup k) (sym same_pending) ∙ e) in
                record {
                  made = entry.made;
                  msgid_eq = entry.msgid_eq;
                  conn_eq = entry.conn_eq;
                  runs = entry.runs;
                  clean = entry.clean;
                  piped = λ still. entry.piped (sound still);
                };
          })
        (λ _. v.connection j made);
  running = λ id made runs.
      let old = v.running id made runs in
      record {
        conn_made = old.conn_made;
        held =
            update_cases (λ i x. lookup (s.requests id).msgid x.pending ≡ some id) s.connections h c
              (s.requests id).conn
              (λ same.
                ap (lookup (s.requests id).msgid) same_pending
                ∙ subst (λ i. lookup (s.requests id).msgid (s.connections i).pending ≡ some id) same
                    old.held)
              (λ _. old.held);
      };
}
