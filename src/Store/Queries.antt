-- ===== src/Store/Queries.antt =====
-- Queries that several services make in the same words.
use propmatch_backend.Prelude.{ℕ, Option, List, ◌==◌, find?}
use propmatch_backend.Store.Schema.{UserQuota, PropertyStatus}

-- `userQuota.findUnique({ where: { userId } })`
abbrev pub find_quota : ℕ → List UserQuota → Option UserQuota
find_quota user = find? (λ q. q.user_id == user)

abbrev pub property_code : PropertyStatus → ℕ
property_code PropertyStatus.pending = 0
property_code PropertyStatus.approved = 1
property_code PropertyStatus.rejected = 2
property_code PropertyStatus.archived = 3
