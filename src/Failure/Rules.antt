-- ===== src/Failure/Rules.antt =====
-- index_failure.go: the cases of the switch of `classifyIndexFailure`, in their order.
use acemcp_relay.Prelude.{List, [], ◌∷◌, Text, bytes}

-- A case of the switch of `classifyIndexFailure`: its words and its code.
abbrev pub Rule : Type 0
Rule = List Text × Text

unfoldable pub disconnected_rule : Rule
unfolding bytes
disconnected_rule =
    (bytes "client disconnected before first upload" ∷ [], bytes "client_disconnected")

unfoldable pub timeout_rule : Rule
unfolding bytes
timeout_rule =
    (bytes "heartbeat timed out" ∷ bytes "heartbeat timeout" ∷ [], bytes "heartbeat_timeout")

-- The cases after the second, in their order.
unfoldable pub later_rules : List Rule
unfolding bytes
later_rules =
    (
      bytes "cloud embedding space changed"
          ∷ bytes "embedding space changed"
          ∷ bytes "clear the tenant root before starting a new index job"
          ∷ [],
      bytes "embedding_space_changed",
    )
    ∷ (
      bytes "remote-index 502"
          ∷ bytes "bad gateway"
          ∷ bytes "cloudflare"
          ∷ bytes "origin web server returned"
          ∷ [],
      bytes "upstream_bad_gateway",
    )
    ∷ (
      bytes "timeout exceeded when trying to connect"
          ∷ bytes "canceling statement due to lock timeout"
          ∷ bytes "cloud platform maintenance in progress"
          ∷ [],
      bytes "upstream_bad_gateway",
    )
    ∷ (
      bytes "payment required"
          ∷ bytes "insufficient balance"
          ∷ bytes "insufficient credit"
          ∷ bytes "余额不足"
          ∷ bytes "欠费"
          ∷ bytes "billing"
          ∷ bytes "remote-index 402"
          ∷ [],
      bytes "provider_billing",
    )
    ∷ (
      bytes "too many requests"
          ∷ bytes "rate limit"
          ∷ bytes "rate-limit"
          ∷ bytes "remote-index 429"
          ∷ [],
      bytes "provider_rate_limited",
    )
    ∷ (
      bytes "the parameter is invalid"
          ∷ bytes "[20015]"
          ∷ bytes "valid utf-8"
          ∷ bytes "special characters are properly escaped"
          ∷ [],
      bytes "provider_invalid_request",
    )
    ∷ (
      bytes "manifest exceeds"
          ∷ bytes "unreadable file list exceeds"
          ∷ bytes "too many files"
          ∷ bytes "file count limit"
          ∷ bytes "maximum file count"
          ∷ bytes "100,000 files"
          ∷ bytes "100000 files"
          ∷ bytes "文件数量"
          ∷ bytes "文件数超过"
          ∷ [],
      bytes "repository_file_limit",
    )
    ∷ (
      bytes "manifest file size is invalid"
          ∷ bytes "file exceeds the"
          ∷ bytes "byte limit"
          ∷ bytes "file too large"
          ∷ bytes "file size limit"
          ∷ bytes "maximum file size"
          ∷ bytes "512 kib"
          ∷ bytes "524288"
          ∷ bytes "文件大小超过"
          ∷ bytes "单文件过大"
          ∷ [],
      bytes "repository_file_size_limit",
    )
    ∷ (
      bytes "daily index quota exceeded"
          ∷ bytes "index quota exceeded"
          ∷ bytes "index_quota_exceeded"
          ∷ bytes "每日索引配额"
          ∷ bytes "索引配额已用尽"
          ∷ bytes "超出索引配额"
          ∷ [],
      bytes "index_quota_exceeded",
    )
    ∷ (
      bytes "unauthorized"
          ∷ bytes "invalid api key"
          ∷ bytes "invalid token"
          ∷ bytes "authentication failed"
          ∷ bytes "remote-index 401"
          ∷ bytes "remote-index 403"
          ∷ [],
      bytes "provider_authentication",
    )
    ∷ (
      bytes "connection refused"
          ∷ bytes "connection reset"
          ∷ bytes "network is unreachable"
          ∷ bytes "network down"
          ∷ bytes "no such host"
          ∷ bytes "i/o timeout"
          ∷ bytes "context deadline exceeded"
          ∷ bytes "unexpected eof"
          ∷ bytes "socket hang up"
          ∷ [],
      bytes "network_unavailable",
    )
    ∷ []

unfoldable pub index_failed : Text
unfolding bytes
index_failed = bytes "index_failed"

unfoldable pub timed_out : Text
unfolding bytes
timed_out = bytes "timed_out"
