-- ===== src/Domain.antt =====
-- game-server/src/domain: the rules for race schedules, and the weather.
pub mod RaceConfig
pub mod RaceSchedules
pub mod RaceErrors
pub mod RaceTests
pub mod Weather
pub mod WeatherDominant
pub mod Windows
pub mod WindowSums
pub mod WindowWeather
pub mod WindowTotals
pub mod WindowLeader
pub mod Forecast
pub mod Forecasts
pub mod ForecastSlots
pub mod Alignment
pub mod WeatherTests
