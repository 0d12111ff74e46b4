-- ===== src/Ads.antt =====
-- The ADS library (ads/): type names, the data-type table and the listing of symbols.
pub mod Interfaces
pub mod TypeNames
pub mod TypeTable
pub mod MockAdsClient
