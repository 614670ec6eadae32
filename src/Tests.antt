-- ===== src/Tests.antt =====
-- Concrete inputs: each property that has hypotheses, applied where they hold.
mod Fixed
mod Filter
mod Api
mod Health
mod Identifiers
mod Issue
mod Lifecycle
mod Matches
mod Storage
mod Analysis
mod Advice
mod Advices
mod Cache
mod Consumer
mod Generation
mod Coupons
mod ObjectStorage
mod Outbox
mod Pipeline
mod Policed
mod Providers
mod Publisher
mod Tenancy
mod Tokens
