-- ===== src/Server/Serving/Asked.antt =====
-- Whom a request that meets the pools of a server is for, or why it is refused at once.
use Prim.Native.String.{String}
use package.text.Mathlib.Text.{◌==◌ as str_eq}
use text.Mathlib.TextEquality.{eq_iff}
use wsp.Base.{
  if◌then◌else◌, ◌≡◌, ◌≢◌, ◌⊎◌, inl, inr, true, false, length, Bool-cases, none, ◌==◌, ==_iff,
  arith,
}
use wsp.Base.Maps.{at, different}
use wsp.Server.Dispatch.{Server}
use wsp.Server.Handlers.{
  HandlerError, Try, good, bad, HandlerConfig, Get, no_pools, bad_destination, no_client_id,
  no_proxy_target, get_client_id, target_of,
}
use wsp.Server.Serving.{Setting}

abbrev pub destination_header : String
destination_header = "X-PROXY-DESTINATION"

-- The request names this client: in the configured header, or there is none and the name is empty.
pub data Names (config : HandlerConfig) (get : Get) : String → Type 0 where
  nobody : config.id_header ≡ "" → Names config get ""
  in_header :
      config.id_header ≢ "" → get config.id_header ≢ "" → Names config get (get config.id_header)

-- The request is for the client with this id: its destination is empty or can be parsed, there are
-- pools, and it names the client.
pub record Asks (w : Setting) (s : Server) (id : String) : Type 0 where
  pub parsed : (w.get destination_header ≡ "") ⊎ (w.parses (w.get destination_header) ≡ true)
  pub some_pools : length s.pools ≢ 0
  pub named : Names w.config w.get id

-- Why the request is refused.
pub data Refusal (w : Setting) (s : Server) : HandlerError → Type 0 where
  unparsed :
      w.get destination_header ≢ ""
      → w.parses (w.get destination_header) ≡ false
      → Refusal w s bad_destination
  without_pools : length s.pools ≡ 0 → Refusal w s no_pools
  unnamed :
      w.config.id_header ≢ ""
      → w.get w.config.id_header ≡ ""
      → Refusal w s (no_client_id w.config.id_header)
  unknown : (id : String) → Asks w s id → at s.pools id ≡ none → Refusal w s (no_proxy_target id)

pub data Verdict (w : Setting) (s : Server) : Try String → Type 0 where
  asks : (id : String) → Asks w s id → Verdict w s (good id)
  refuses : (e : HandlerError) → Refusal w s e → Verdict w s (bad e)

module _ (w : Setting) (s : Server) where
  named-Verdict :
      (w.get destination_header ≡ "") ⊎ (w.parses (w.get destination_header) ≡ true)
      → length s.pools ≢ 0
      → Verdict w s (get_client_id w.config w.get)
  unfolding get_client_id
  named-Verdict parsed pools = elim (Bool-cases (str_eq w.config.id_header "")) [
    | inl blank ↦ rw blank (
        asks ""
          (record { parsed = parsed; some_pools = pools; named = nobody ((eq_iff _ _).0 blank) }))
    | inr header ↦ elim (Bool-cases (str_eq (w.get w.config.id_header) "")) [
      | inl blank ↦
          rw (header, blank) (refuses _ (unnamed (different _ _ header) ((eq_iff _ _).0 blank)))
      | inr id ↦
          rw (header, id)
            (asks _ (record {
              parsed = parsed;
              some_pools = pools;
              named = in_header (different _ _ header) (different _ _ id);
            }))
    ]
  ]

  parsed-Verdict :
      (w.get destination_header ≡ "") ⊎ (w.parses (w.get destination_header) ≡ true)
      → Verdict w s (if length s.pools == 0 then bad no_pools else get_client_id w.config w.get)
  parsed-Verdict parsed = elim (Bool-cases (length s.pools == 0)) [
    | inl none_there ↦ rw none_there (refuses _ (without_pools ((==_iff _ _).0 none_there)))
    | inr some_there ↦ rw some_there (named-Verdict parsed (λ e. ground (arith, e, some_there)))
  ]

  pub target_of-Verdict : Verdict w s (target_of w.config w.get w.parses (length s.pools))
  unfolding target_of
  target_of-Verdict = elim (Bool-cases (str_eq (w.get destination_header) "")) [
    | inl direct ↦ rw direct (parsed-Verdict (inl ((eq_iff _ _).0 direct)))
    | inr to ↦ elim (Bool-cases (w.parses (w.get destination_header))) [
      | inl fine ↦ rw (to, fine) (parsed-Verdict (inr fine))
      | inr wrong ↦ rw (to, wrong) (refuses _ (unparsed (different _ _ to) wrong))
    ]
  ]
