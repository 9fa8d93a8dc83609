-- ===== src/Service/Polling.antt =====
-- A host that startPolling makes: its start and the rounds of its loop.
use l8collector.Prelude.{string_eq}
use l8collector.Types.{Host}
