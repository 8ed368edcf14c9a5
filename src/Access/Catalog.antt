-- ===== src/Access/Catalog.antt =====
-- backend/app/domain/rbac_catalog.py: the codes, without their names in Chinese.
use timber_ops.Prelude.{String, List, [], ◌∷◌}

-- `ROLE_DEFINITIONS`
abbrev pub role_definitions : List String
role_definitions = "ADMIN" ∷ "OPERATOR" ∷ "VIEWER" ∷ []

-- `PERMISSION_DEFINITIONS`
abbrev pub permission_definitions : List String
permission_definitions =
    "vehicle:create" ∷ "vehicle:update" ∷ "vehicle:delete" ∷ "vehicle:view" ∷ "customer:create"
    ∷ "customer:update" ∷ "customer:delete" ∷ "customer:view" ∷ "weighing:create" ∷ "weighing:tare"
    ∷ "weighing:gross" ∷ "weighing:complete" ∷ "weighing:delete" ∷ "weighing:view"
    ∷ "weighing:reverse" ∷ "billing:view" ∷ "billing:update" ∷ "billing:waive" ∷ "export:data"
    ∷ "ai:query" ∷ "user:manage" ∷ "dashboard:view" ∷ "audit:view" ∷ "report:view" ∷ "report:export"
    ∷ []
