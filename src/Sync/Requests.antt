-- ===== src/Sync/Requests.antt =====
-- What a call of `Client` does at one endpoint: `doJSON`, `ensureLogin` and `forceLogin` of
-- internal/clustersync/client.go. What the server answers is given.
use flow_proxy.Prelude.{
  ℕ, not, ◌||◌, List, ◌∷◌, ◌++◌, Option, none, some, Text, codes, is_empty, member, if◌then◌else◌,
  leb, ltb, ◌==◌, trim_space,
}
use flow_proxy.Sync.Client.{SyncError, unauthorized, message, Calling, Client, with_failover}

-- The response to one HTTP request: none arrives, or a status with its text, the error text of its
-- body, and whether the body decodes.
pub data Response : Type 0 where
  no_response : (text : Text) → Response
  response : (status : ℕ) (status_text error_text : Text) (decodes : Option Text) → Response

-- The end of `doJSONOnce`.
unfoldable pub result_of : Response → Option SyncError
unfolding trim_space
result_of (no_response text) = some (message text)
result_of (response status status_text error_text decodes) =
    if status == 401
    then some unauthorized
    else if ltb status 200 || leb 300 status
    then (if not (is_empty (trim_space error_text))
        then some (message (codes "cluster sync api error: " ++ error_text))
        else some (message (codes "cluster sync request failed: " ++ status_text)))
    else elim decodes [ none ↦ none | some text ↦ some (message text) ]

-- What an endpoint answers to a login, to the request, and to the request after a second login.
pub record Server : Type 0 where
  pub login : Response
  pub once : Response
  pub login_again : Response
  pub once_again : Response

unfoldable pub ensure_login : Response → Text → List Text → Option SyncError × List Text
unfolding result_of
ensure_login r url logged =
    if member url logged
    then (none, logged)
    else elim (result_of r) [ none ↦ (none, url ∷ logged) | some e ↦ (some e, logged) ]

unfoldable pub force_login : Response → Text → List Text → Option SyncError × List Text
unfolding result_of
force_login r url logged = elim (result_of r) [
  | none ↦ (none, url ∷ logged)
  | some e ↦ (some e, logged)
]

-- The function that `doJSON` hands to `withFailover`, for a path other than that of the login.
unfoldable pub call_endpoint : (Text → Server) → Calling
unfolding ensure_login force_login result_of
call_endpoint servers url logged =
    let (refusal, l) = ensure_login (servers url).login url logged in
    let (refusal_again, k) = force_login (servers url).login_again url l in
    elim refusal [
      | some e ↦ (some e, l)
      | none ↦ elim (result_of (servers url).once) [
        | none ↦ (none, l)
        | some e ↦ elim e [
          | message text ↦ (some (message text), l)
          | unauthorized ↦ elim refusal_again [
            | some f ↦ (some f, k)
            | none ↦ (result_of (servers url).once_again, k)
          ]
        ]
      ]
    ]

unfoldable pub do_json : (Text → Server) → ℕ → Client → Option SyncError × Client
unfolding with_failover call_endpoint
do_json servers now c = with_failover (call_endpoint servers) now c
