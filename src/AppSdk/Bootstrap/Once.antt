-- ===== src/AppSdk/Bootstrap/Once.antt =====
-- appsdk/sdk.go: what the bootstrap loop brought up is not brought up again.
