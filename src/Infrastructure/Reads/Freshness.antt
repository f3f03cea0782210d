-- ===== src/Infrastructure/Reads/Freshness.antt =====
-- How old an answer of the caches may be, whatever the order of the calls:
-- src/infrastructure/blockchain/protocol-read.service.ts.
use spawn_backend.Prelude.{
  ℕ, ◌+◌, ◌≤◌, ◌<◌, ◌≡◌, refl, sym, ◌∙◌, ltb, ltb→lt, List, [], ◌∷◌, none, some, inl, inr,
  Bool-cases, All, arith,
}
use spawn_backend.Common.Decimal.{Text}
use spawn_backend.Common.Dict.Entries.{Everywhere, Everywhere-put, Everywhere-remove}
use spawn_backend.Common.TextDict.{AllText, AllText-put_text, AllText-remove_text}
use spawn_backend.Infrastructure.Reads.Views.{
  ProtocolTemplateView, EconomicConfigView, PoolStateView, Slot0View, ControllerStateView,
}
use spawn_backend.Infrastructure.Reads.{
  Timed, ReadCaches, pool_key, live_value, timed, store_template, store_economics, store_pool_state,
  store_slot0, store_controller, invalidate_pool, invalidate_economics, invalidate_governance,
  template_ttl_ms, economics_ttl_ms, pool_state_ttl_ms, slot0_ttl_ms,
}

-- The state of the chains over time.
pub record ChainHistory : Type 0 where
  pub template : ℕ → ℕ → ProtocolTemplateView
  pub economics : ℕ → ℕ → EconomicConfigView
  pub pool_state : ℕ → Text → ℕ → PoolStateView
  pub slot0 : ℕ → Text → ℕ → Slot0View
  pub controller : ℕ → ℕ → ControllerStateView

-- A read that saw a chain at one time and ended at another, and the calls that delete entries.
pub data CacheEvent : Type 0 where
  template_read economics_read controller_read : ℕ → ℕ → ℕ → CacheEvent
  pool_state_read slot0_read : ℕ → Text → ℕ → ℕ → CacheEvent
  pool_invalidated : ℕ → Text → CacheEvent
  economics_invalidated : ℕ → CacheEvent
  governance_invalidated : CacheEvent

abbrev pub no_entries : ReadCaches
no_entries = record {
  templates = [];
  economics = [];
  pool_states = [];
  slot0s = [];
  controller = none;
}

-- A read ends at most the latency after the moment that it saw.
abbrev pub IsPrompt : ℕ → CacheEvent → Type 0
IsPrompt latency (template_read chain_id seen ended) = ended ≤ seen + latency
IsPrompt latency (economics_read chain_id seen ended) = ended ≤ seen + latency
IsPrompt latency (controller_read chain_id seen ended) = ended ≤ seen + latency
IsPrompt latency (pool_state_read chain_id pool_id seen ended) = ended ≤ seen + latency
IsPrompt latency (slot0_read chain_id pool_id seen ended) = ended ≤ seen + latency
IsPrompt latency _ = Unit

-- A value that a chain had at a time less than the given span ago.
abbrev pub IsRecent {ℓ} : {A : Type ℓ} → (ℕ → A) → ℕ → ℕ → A → Type ℓ
IsRecent history span now value = (seen : ℕ) × (value ≡ history seen) × (now < seen + span)

-- An entry that will go in time.
abbrev pub IsTimely {ℓ} : {A : Type ℓ} → (ℕ → A) → ℕ → Timed A → Type ℓ
IsTimely history span entry =
    (seen : ℕ) × (entry.value ≡ history seen) × (entry.expires_at ≤ seen + span)

pub live_value-IsRecent {ℓ} :
    {A : Type ℓ} (history : ℕ → A) (span now : ℕ) (entry : Timed A) {value : A}
    → IsTimely history span entry
    → live_value now (some entry) ≡ some value
    → IsRecent history span now value
unfolding live_value
live_value-IsRecent history span now entry {value = value} (seen, e, late) h =
    elim (Bool-cases (ltb now entry.expires_at)) [
      | inl live ↦
          let same : entry.value ≡ value = (let h' = rw live at h in cc) in
          let soon = ltb→lt now entry.expires_at live in (seen, sym same ∙ e, omega arith)
      | inr gone ↦ (let h' = rw gone at h in cc)
    ]

module _ (history : ChainHistory) (latency : ℕ) where
  abbrev pub perform : CacheEvent → ReadCaches → ReadCaches
  perform (template_read chain_id seen ended) s =
      store_template ended chain_id (history.template chain_id seen) s
  perform (economics_read chain_id seen ended) s =
      store_economics ended chain_id (history.economics chain_id seen) s
  perform (controller_read chain_id seen ended) s =
      store_controller ended (history.controller chain_id seen) s
  perform (pool_state_read chain_id pool_id seen ended) s =
      store_pool_state ended chain_id pool_id (history.pool_state chain_id pool_id seen) s
  perform (slot0_read chain_id pool_id seen ended) s =
      store_slot0 ended chain_id pool_id (history.slot0 chain_id pool_id seen) s
  perform (pool_invalidated chain_id pool_id) s = invalidate_pool chain_id pool_id s
  perform (economics_invalidated chain_id) s = invalidate_economics chain_id s
  perform governance_invalidated s = invalidate_governance s

  abbrev pub perform_all : List CacheEvent → ReadCaches → ReadCaches
  perform_all [] s = s
  perform_all (event ∷ events) s = perform_all events (perform event s)

  abbrev pub ForPool : {A : Type 0} → (ℕ → Text → ℕ → A) → ℕ → Text → Timed A → Type 0
  ForPool past span key entry =
      (chain_id : ℕ) × (pool_id : Text) × (key ≡ pool_key chain_id pool_id)
      × IsTimely (past chain_id pool_id) span entry

  pub record AreTimely (s : ReadCaches) : Type 0 where
    pub templates :
        Everywhere
          (λ chain_id. IsTimely (history.template chain_id) (latency + template_ttl_ms))
          s.templates
    pub economics :
        Everywhere
          (λ chain_id. IsTimely (history.economics chain_id) (latency + economics_ttl_ms))
          s.economics
    pub pool_states :
        AllText (ForPool history.pool_state (latency + pool_state_ttl_ms)) s.pool_states
    pub slot0s : AllText (ForPool history.slot0 (latency + slot0_ttl_ms)) s.slot0s

  store_template-AreTimely :
      (ended chain_id seen : ℕ) (s : ReadCaches)
      → ended ≤ seen + latency
      → AreTimely s
      → AreTimely (store_template ended chain_id (history.template chain_id seen) s)
  unfolding store_template timed
  store_template-AreTimely ended chain_id seen s prompt t = record {
    templates =
        Everywhere-put (λ c. IsTimely (history.template c) (latency + template_ttl_ms)) s.templates
          chain_id _ (seen, refl, omega arith) t.templates;
    economics = t.economics;
    pool_states = t.pool_states;
    slot0s = t.slot0s;
  }

  store_economics-AreTimely :
      (ended chain_id seen : ℕ) (s : ReadCaches)
      → ended ≤ seen + latency
      → AreTimely s
      → AreTimely (store_economics ended chain_id (history.economics chain_id seen) s)
  unfolding store_economics timed
  store_economics-AreTimely ended chain_id seen s prompt t = record {
    templates = t.templates;
    economics =
        Everywhere-put (λ c. IsTimely (history.economics c) (latency + economics_ttl_ms))
          s.economics chain_id _ (seen, refl, omega arith) t.economics;
    pool_states = t.pool_states;
    slot0s = t.slot0s;
  }

  store_pool_state-AreTimely :
      (ended chain_id : ℕ) (pool_id : Text) (seen : ℕ) (s : ReadCaches)
      → ended ≤ seen + latency
      → AreTimely s
      → AreTimely
          (store_pool_state ended chain_id pool_id (history.pool_state chain_id pool_id seen) s)
  unfolding store_pool_state timed
  store_pool_state-AreTimely ended chain_id pool_id seen s prompt t = record {
    templates = t.templates;
    economics = t.economics;
    pool_states =
        AllText-put_text (ForPool history.pool_state (latency + pool_state_ttl_ms)) s.pool_states _
          _ (chain_id, pool_id, refl, (seen, refl, omega arith)) t.pool_states;
    slot0s = t.slot0s;
  }

  store_slot0-AreTimely :
      (ended chain_id : ℕ) (pool_id : Text) (seen : ℕ) (s : ReadCaches)
      → ended ≤ seen + latency
      → AreTimely s
      → AreTimely (store_slot0 ended chain_id pool_id (history.slot0 chain_id pool_id seen) s)
  unfolding store_slot0 timed
  store_slot0-AreTimely ended chain_id pool_id seen s prompt t = record {
    templates = t.templates;
    economics = t.economics;
    pool_states = t.pool_states;
    slot0s =
        AllText-put_text (ForPool history.slot0 (latency + slot0_ttl_ms)) s.slot0s _ _
          (chain_id, pool_id, refl, (seen, refl, omega arith)) t.slot0s;
  }

  perform-AreTimely :
      (event : CacheEvent) (s : ReadCaches)
      → IsPrompt latency event
      → AreTimely s
      → AreTimely (perform event s)
  unfolding store_controller invalidate_pool invalidate_economics invalidate_governance
  perform-AreTimely (template_read chain_id seen ended) s prompt t =
      store_template-AreTimely ended chain_id seen s prompt t
  perform-AreTimely (economics_read chain_id seen ended) s prompt t =
      store_economics-AreTimely ended chain_id seen s prompt t
  perform-AreTimely (pool_state_read chain_id pool_id seen ended) s prompt t =
      store_pool_state-AreTimely ended chain_id pool_id seen s prompt t
  perform-AreTimely (slot0_read chain_id pool_id seen ended) s prompt t =
      store_slot0-AreTimely ended chain_id pool_id seen s prompt t
  perform-AreTimely (controller_read chain_id seen ended) s prompt t = record {
    templates = t.templates;
    economics = t.economics;
    pool_states = t.pool_states;
    slot0s = t.slot0s;
  }
  perform-AreTimely governance_invalidated s prompt t = record {
    templates = t.templates;
    economics = t.economics;
    pool_states = t.pool_states;
    slot0s = t.slot0s;
  }
  perform-AreTimely (pool_invalidated chain_id pool_id) s prompt t = record {
    templates = t.templates;
    economics = t.economics;
    pool_states = AllText-remove_text _ s.pool_states _ t.pool_states;
    slot0s = AllText-remove_text _ s.slot0s _ t.slot0s;
  }
  perform-AreTimely (economics_invalidated chain_id) s prompt t = record {
    templates = t.templates;
    economics = Everywhere-remove _ s.economics chain_id t.economics;
    pool_states = t.pool_states;
    slot0s = t.slot0s;
  }

  pub perform_all-AreTimely :
      (events : List CacheEvent) (s : ReadCaches)
      → All (IsPrompt latency) events
      → AreTimely s
      → AreTimely (perform_all events s)
  perform_all-AreTimely [] s prompt t = t
  perform_all-AreTimely (event ∷ events) s (prompt, rest) t =
      perform_all-AreTimely events (perform event s) rest (perform-AreTimely event s prompt t)
