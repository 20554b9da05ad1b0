-- ===== src/SplitProxy.antt =====
-- runtime/proxy-stack/iphone_lan_split_proxy.py: the proxy that sends local and domestic targets
-- directly and all others to the upstream proxy. Bytes are texts of one character each.
pub mod Address
pub mod Route
pub mod Cache
pub mod Request
pub mod Handler
