-- ===== src/Infrastructure/Reads/Answers.antt =====
-- The answers of the caches of src/infrastructure/blockchain/protocol-read.service.ts after any calls.
use spawn_backend.Prelude.{ℕ, ◌+◌, ◌≡◌, refl, List, Option, none, some, All}
use spawn_backend.Common.Decimal.{Text}
use spawn_backend.Common.Dict.{find}
use spawn_backend.Common.TextDict.{find_text, TextDict, AllText, AllText-find_text}
use spawn_backend.Infrastructure.Reads.Views.{
  ProtocolTemplateView, EconomicConfigView, PoolStateView, Slot0View,
}
use spawn_backend.Infrastructure.Reads.Keys.{pool_key-injective}
use spawn_backend.Infrastructure.Reads.Freshness.{
  ChainHistory, CacheEvent, no_entries, IsPrompt, IsRecent, IsTimely, live_value-IsRecent,
  perform_all, AreTimely, perform_all-AreTimely,
}
use spawn_backend.Infrastructure.Reads.{
  Timed, ReadCaches, pool_key, live_value, cached_template, cached_economics, cached_pool_state,
  cached_slot0, template_ttl_ms, economics_ttl_ms, pool_state_ttl_ms, slot0_ttl_ms,
}

-- A live answer is of an entry that was found.
entry_of :
    {A : Type 0} (now : ℕ) (o : Option (Timed A)) {value : A}
    → live_value now o ≡ some value
    → (entry : Timed A) × (o ≡ some entry) × (live_value now (some entry) ≡ some value)
unfolding live_value
entry_of now none h = cc
entry_of now (some entry) h = (entry, refl, h)

pool_answer-IsRecent :
    {A : Type 0} (past : ℕ → Text → ℕ → A) (span now chain_id : ℕ) (pool_id : Text)
    (d : TextDict (Timed A)) {value : A}
    → AllText
        (λ key entry. (c : ℕ) × (p : Text) × (key ≡ pool_key c p) × IsTimely (past c p) span entry)
        d
    → live_value now (find_text d (pool_key chain_id pool_id)) ≡ some value
    → IsRecent (past chain_id pool_id) span now value
pool_answer-IsRecent past span now chain_id pool_id d entries h =
    let (entry, found, live) = entry_of now _ h in
    let (c, p, key, timely) =
      AllText-find_text _ d (pool_key chain_id pool_id) entry entries found in
    let (chain, pool) = pool_key-injective chain_id c pool_id p key in
    live_value-IsRecent (past chain_id pool_id) span now entry (rw (chain, pool) timely) live

-- What the caches answer at a time, about any chain and pool.
pub record AnswersAreRecent (history : ChainHistory) (latency now chain_id : ℕ) (pool_id : Text)
    (s : ReadCaches) : Type 0 where
  pub template :
      (v : ProtocolTemplateView)
      → cached_template now chain_id s ≡ some v
      → IsRecent (history.template chain_id) (latency + template_ttl_ms) now v
  pub economics :
      (v : EconomicConfigView)
      → cached_economics now chain_id s ≡ some v
      → IsRecent (history.economics chain_id) (latency + economics_ttl_ms) now v
  pub pool_state :
      (v : PoolStateView)
      → cached_pool_state now chain_id pool_id s ≡ some v
      → IsRecent (history.pool_state chain_id pool_id) (latency + pool_state_ttl_ms) now v
  pub slot0 :
      (v : Slot0View)
      → cached_slot0 now chain_id pool_id s ≡ some v
      → IsRecent (history.slot0 chain_id pool_id) (latency + slot0_ttl_ms) now v

-- After any reads and invalidations, in any order and interleaving, where each read ends within the
-- latency of the moment that it saw: whatever template, economics, pool state or slot the caches answer
-- for a chain and a pool is one that this chain had for this pool less than the latency and the cache's
-- time to live ago.
pub perform_all-AnswersAreRecent :
    (history : ChainHistory) (latency : ℕ) (events : List CacheEvent) (now chain_id : ℕ)
    (pool_id : Text)
    → All (IsPrompt latency) events
    → AnswersAreRecent history latency now chain_id pool_id
        (perform_all history latency events no_entries)
unfolding cached_template cached_economics cached_pool_state cached_slot0 find
perform_all-AnswersAreRecent history latency events now chain_id pool_id prompt =
    let none_found : AreTimely history latency no_entries = record {
      templates = λ k v h. cc;
      economics = λ k v h. cc;
      pool_states = tt;
      slot0s = tt;
    } in
    let t = perform_all-AreTimely history latency events no_entries prompt none_found in
    record {
      template = λ v h.
          let (entry, found, live) = entry_of now _ h in
          live_value-IsRecent _ _ now entry (t.templates chain_id entry found) live;
      economics = λ v h.
          let (entry, found, live) = entry_of now _ h in
          live_value-IsRecent _ _ now entry (t.economics chain_id entry found) live;
      pool_state =
          λ v h. pool_answer-IsRecent history.pool_state _ now chain_id pool_id _ t.pool_states h;
      slot0 = λ v h. pool_answer-IsRecent history.slot0 _ now chain_id pool_id _ t.slot0s h;
    }
